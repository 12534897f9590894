-- ===== src/CommandLine/Argv.antt =====
-- Arguments escaped by syscall.EscapeArg come back from commandLineToArgv.
use Prim.Native.Char.{Char}
use mathlib.Core.List.{append_assoc, append-nil}
use remote_mouse.Common.{
  ℕ, suc, Bool, true, false, ◌||◌, List, [], ◌∷◌, ◌++◌, any_of, ◌≡◌, refl, sym, ap, ◌∙◌, arith,
  Bool-cases, inl, inr,
}
use remote_mouse.CommandLine.{
  is_quote, is_slash, is_blank, backslash, quote, backslashes, escape_loop, escape_arg, push,
  begins_with_quote, read_next_arg,
}
use remote_mouse.CommandLine.Reader.{
  Stops, after, backslashes-slash, read-slash, read-plain, read_backslashes, even_quote,
  read_literal, never_blank, read_end, regroup,
}

-- Quoted text comes back up to its closing quote.
read-escape_loop_spaced :
    (n : ℕ) (s rest : List Char)
    → begins_with_quote rest ≡ false
    → read_next_arg false true n (escape_loop true n s ++ rest)
      ≡ push (backslashes n ++ s) (read_next_arg false false 0 rest)
unfolding escape_loop
read-escape_loop_spaced n [] rest h =
    rw (append_assoc (backslashes n) (quote ∷ []) rest, append-nil (backslashes n))
      (read_backslashes true n n (quote ∷ rest) ∙ even_quote n rest h)
read-escape_loop_spaced n (c ∷ s) rest h = elim (Bool-cases (is_slash c)) [
  | inl slash ↦ rw slash (
      read-slash true n c (escape_loop true (suc n) s ++ rest) slash
      ∙ read-escape_loop_spaced (suc n) s rest h
      ∙ ap (λ (t : List Char). push t (read_next_arg false false 0 rest))
          (backslashes-slash n c s slash))
  | inr no_slash ↦ elim (Bool-cases (is_quote c)) [
    | inl quoted ↦
        rw
          (
            no_slash,
            quoted,
            append_assoc (backslashes n) (backslash ∷ c ∷ escape_loop true 0 s) rest,
          )
          (read_literal true n c (escape_loop true 0 s ++ rest) quoted
            ∙ ap (push (backslashes n ++ c ∷ [])) (read-escape_loop_spaced 0 s rest h)
            ∙ regroup n c s rest)
    | inr plain ↦
        rw (no_slash, plain)
          (read-plain true n c (escape_loop true 0 s ++ rest) no_slash plain (never_blank c)
            ∙ ap (push (backslashes n ++ c ∷ [])) (read-escape_loop_spaced 0 s rest h)
            ∙ regroup n c s rest)
  ]
]

-- Text without blanks comes back up to the blank that follows it.
pub read-escape_loop :
    (n : ℕ) (s rest : List Char)
    → any_of is_blank s ≡ false
    → Stops rest
    → read_next_arg false false n (escape_loop false n s ++ rest) ≡ (backslashes n ++ s, after rest)
unfolding escape_loop
read-escape_loop n [] rest clean stops = rw (append-nil (backslashes n)) (read_end n rest stops)
read-escape_loop n (c ∷ s) rest clean stops =
    let here : is_blank c ≡ false = ground arith in
    let there : any_of is_blank s ≡ false = ground arith in
    elim (Bool-cases (is_slash c)) [
      | inl slash ↦ rw slash (
          read-slash false n c (escape_loop false (suc n) s ++ rest) slash
          ∙ read-escape_loop (suc n) s rest there stops
          ∙ ap (λ (t : List Char). (t, after rest)) (backslashes-slash n c s slash))
      | inr no_slash ↦ elim (Bool-cases (is_quote c)) [
        | inl quoted ↦
            rw
              (
                no_slash,
                quoted,
                append_assoc (backslashes n) (backslash ∷ c ∷ escape_loop false 0 s) rest,
              )
              (read_literal false n c (escape_loop false 0 s ++ rest) quoted
                ∙ ap (push (backslashes n ++ c ∷ [])) (read-escape_loop 0 s rest there stops)
                ∙ ap (λ (t : List Char). (t, after rest)) (append_assoc (backslashes n) (c ∷ []) s))
        | inr plain ↦
            rw (no_slash, plain)
              (read-plain false n c (escape_loop false 0 s ++ rest) no_slash plain (rw here refl)
                ∙ ap (push (backslashes n ++ c ∷ [])) (read-escape_loop 0 s rest there stops)
                ∙ ap (λ (t : List Char). (t, after rest)) (append_assoc (backslashes n) (c ∷ []) s))
      ]
    ]

-- A text with nothing to escape is left as it is.
escape_loop_plain :
    (spaced : Bool) (s : List Char)
    → any_of (λ d. is_quote d || is_slash d) s ≡ false
    → escape_loop spaced 0 s ≡ s ++ escape_loop spaced 0 []
unfolding escape_loop
escape_loop_plain spaced [] h = refl
escape_loop_plain spaced (c ∷ s) h =
    let plain : is_slash c ≡ false = ground arith in
    let unquoted : is_quote c ≡ false = ground arith in
    let rest : any_of (λ d. is_quote d || is_slash d) s ≡ false = ground arith in
    rw (plain, unquoted) (ap (◌∷◌ c) (escape_loop_plain spaced s rest))

escape_loop_quotes :
    (s : List Char)
    → any_of (λ d. is_quote d || is_slash d) s ≡ false
    → s ++ quote ∷ [] ≡ escape_loop true 0 s
unfolding escape_loop
escape_loop_quotes s h = sym (escape_loop_plain true s h)

escape_loop_raw :
    (s : List Char) → any_of (λ d. is_quote d || is_slash d) s ≡ false → s ≡ escape_loop false 0 s
unfolding escape_loop
escape_loop_raw s h = sym (escape_loop_plain false s h ∙ append-nil s)

open_quote :
    (s : List Char) → read_next_arg false false 0 (quote ∷ s) ≡ read_next_arg false true 0 s
unfolding read_next_arg
open_quote s = refl

Stops-unquoted : (rest : List Char) → Stops rest → begins_with_quote rest ≡ false
Stops-unquoted [] h = refl
Stops-unquoted (c ∷ s) h = ground arith

-- An argument in quotes, whatever stands in it.
pub read_quoted :
    (s rest : List Char)
    → Stops rest
    → read_next_arg false false 0 (quote ∷ escape_loop true 0 s ++ rest) ≡ (s, after rest)
read_quoted s rest stops =
    open_quote (escape_loop true 0 s ++ rest)
    ∙ read-escape_loop_spaced 0 s rest (Stops-unquoted rest stops)
    ∙ ap (push s) (read_end 0 rest stops)
    ∙ ap (λ (t : List Char). (t, after rest)) (append-nil s)

-- The reader gives an escaped argument back, and stops behind the blank that follows it.
pub read-escape_arg :
    (s rest : List Char)
    → Stops rest
    → read_next_arg false false 0 (escape_arg s ++ rest) ≡ (s, after rest)
unfolding escape_arg
read-escape_arg [] rest stops = unfold escape_loop in read_quoted [] rest stops
read-escape_arg (c ∷ s) rest stops =
    elim (Bool-cases (any_of (λ d. is_quote d || is_slash d) (c ∷ s))) [
      | inl sp ↦ elim (Bool-cases (any_of is_blank (c ∷ s))) [
        | inl bl ↦ rw (sp, bl) (read_quoted (c ∷ s) rest stops)
        | inr nb ↦ rw (sp, nb) (read-escape_loop 0 (c ∷ s) rest nb stops)
      ]
      | inr ns ↦ elim (Bool-cases (any_of is_blank (c ∷ s))) [
        | inl bl ↦
            rw (ns, bl)
              (ap (λ (t : List Char). read_next_arg false false 0 (quote ∷ t ++ rest))
                  (escape_loop_quotes (c ∷ s) ns)
                ∙ read_quoted (c ∷ s) rest stops)
        | inr nb ↦
            rw (ns, nb)
              (ap (λ (t : List Char). read_next_arg false false 0 (t ++ rest))
                  (escape_loop_raw (c ∷ s) ns)
                ∙ read-escape_loop 0 (c ∷ s) rest nb stops)
      ]
    ]
