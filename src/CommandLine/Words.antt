-- ===== src/CommandLine/Words.antt =====
-- The words that server/ puts on a command line, and the arguments that they stand for: escaped
-- arguments, words without quotes and blanks, and a path in quotes.
use Prim.Native.Char.{Char}
use remote_mouse.Common.{
  ℕ, suc, Bool, true, false, ◌||◌, List, [], ◌∷◌, ◌++◌, All, any_of, ◌≡◌, ◌≢◌, refl, sym, ap, ◌∙◌,
  arith, Bool-cases, inl, inr,
}
use remote_mouse.Common.Int.{ℤ, pos, negsuc}
use remote_mouse.CommandLine.{
  is_quote, is_slash, is_blank, quote, escape_loop, escape_arg, read_next_arg,
}
use remote_mouse.CommandLine.Reader.{Stops, after}
use remote_mouse.CommandLine.Argv.{read-escape_arg, read-escape_loop, read_quoted}
use remote_mouse.CommandLine.Join.{Reads}
use remote_mouse.Decimal.{itoa, digits}
use remote_mouse.Decimal.Itoa.{IsDecimal, digits-All, digits-cons}

-- How a word begins.
abbrev Begins : List Char → Type 0
Begins [] = ⊥
Begins (c ∷ s) = is_blank c ≡ false

escape_loop-Begins :
    (c : Char) (s : List Char) → is_blank c ≡ false → Begins (escape_loop false 0 (c ∷ s))
unfolding escape_loop
escape_loop-Begins c s h = elim (Bool-cases (is_slash c)) [
  | inl slash ↦ rw slash h
  | inr no_slash ↦ elim (Bool-cases (is_quote c)) [
    | inl quoted ↦ rw (no_slash, quoted) refl
    | inr plain ↦ rw (no_slash, plain) h
  ]
]

escape_arg-Begins : (s : List Char) → Begins (escape_arg s)
unfolding escape_arg
escape_arg-Begins [] = refl
escape_arg-Begins (c ∷ s) = elim (Bool-cases (any_of (λ d. is_quote d || is_slash d) (c ∷ s))) [
  | inl sp ↦ elim (Bool-cases (any_of is_blank (c ∷ s))) [
    | inl bl ↦ rw (sp, bl) refl
    | inr nb ↦ rw (sp, nb) (escape_loop-Begins c s (ground arith))
  ]
  | inr ns ↦ elim (Bool-cases (any_of is_blank (c ∷ s))) [
    | inl bl ↦ rw (ns, bl) refl
    | inr nb ↦ let first : is_blank c ≡ false = ground arith in rw (ns, nb) first
  ]
]

Reads-intro :
    (e a : List Char)
    → Begins e
    → ((rest : List Char) → Stops rest → read_next_arg false false 0 (e ++ rest) ≡ (a, after rest))
    → Reads e a
Reads-intro [] a b r = absurd b
Reads-intro (c ∷ s) a b r = record { first = c; others = s; shape = refl; not_blank = b; read = r }

-- An escaped argument stands for itself, whatever it is.
pub escape_arg-Reads : (s : List Char) → Reads (escape_arg s) s
escape_arg-Reads s = Reads-intro (escape_arg s) s (escape_arg-Begins s) (read-escape_arg s)

-- Words that need no quotes; backslashes may stand in them.
abbrev pub IsWord : List Char → Type 0
IsWord s = (any_of is_quote s ≡ false) × (any_of is_blank s ≡ false) × (s ≢ [])

escape_loop_word : (n : ℕ) (s : List Char) → any_of is_quote s ≡ false → escape_loop false n s ≡ s
unfolding escape_loop
escape_loop_word n [] h = refl
escape_loop_word n (c ∷ s) h =
    let plain : is_quote c ≡ false = ground arith in
    let rest : any_of is_quote s ≡ false = ground arith in
    elim (Bool-cases (is_slash c)) [
      | inl slash ↦ rw slash (ap (◌∷◌ c) (escape_loop_word (suc n) s rest))
      | inr no_slash ↦ rw (no_slash, plain) (ap (◌∷◌ c) (escape_loop_word 0 s rest))
    ]

word-Begins : (s : List Char) → IsWord s → Begins s
word-Begins [] w = absurd (w.2 refl)
word-Begins (c ∷ s) w = ground arith

pub word-Reads : (s : List Char) → IsWord s → Reads s s
word-Reads s w = Reads-intro s s (word-Begins s w) λ rest stops.
    ap (λ (t : List Char). read_next_arg false false 0 (t ++ rest)) (sym (escape_loop_word 0 s w.0))
    ∙ read-escape_loop 0 s rest w.1 stops

-- A path that may stand in quotes.
abbrev pub ends_in_slash : List Char → Bool
ends_in_slash [] = false
ends_in_slash (c ∷ []) = is_slash c
ends_in_slash (c ∷ d ∷ s) = ends_in_slash (d ∷ s)

abbrev pub IsPath : List Char → Type 0
IsPath s = (any_of is_quote s ≡ false) × (ends_in_slash s ≡ false)

escape_loop_path :
    (n : ℕ) (c : Char) (s : List Char)
    → IsPath (c ∷ s)
    → escape_loop true n (c ∷ s) ≡ (c ∷ s) ++ quote ∷ []
unfolding escape_loop
escape_loop_path n c [] h = let plain : is_quote c ≡ false = ground arith in rw (h.1, plain) refl
escape_loop_path n c (d ∷ s) h =
    let plain : is_quote c ≡ false = ground arith in
    let rest : any_of is_quote (d ∷ s) ≡ false = ground arith in
    elim (Bool-cases (is_slash c)) [
      | inl slash ↦ rw slash (ap (◌∷◌ c) (escape_loop_path (suc n) d s (rest, h.1)))
      | inr no_slash ↦ rw (no_slash, plain) (ap (◌∷◌ c) (escape_loop_path 0 d s (rest, h.1)))
    ]

path_loop : (s : List Char) → IsPath s → escape_loop true 0 s ≡ s ++ quote ∷ []
path_loop [] h = unfold escape_loop in refl
path_loop (c ∷ s) h = escape_loop_path 0 c s h

pub path-Reads : (s : List Char) → IsPath s → Reads (quote ∷ s ++ quote ∷ []) s
path-Reads s h = Reads-intro (quote ∷ s ++ quote ∷ []) s refl λ rest stops.
    ap (λ (t : List Char). read_next_arg false false 0 (quote ∷ t ++ rest)) (sym (path_loop s h))
    ∙ read_quoted s rest stops

decimal_clean :
    (s : List Char) → All IsDecimal s → (any_of is_quote s ≡ false) × (any_of is_blank s ≡ false)
decimal_clean [] h = (refl, refl)
decimal_clean (c ∷ s) h = (ground (arith, decimal_clean s), ground (arith, decimal_clean s))

-- strconv.Itoa writes a word.
pub itoa-Reads : (z : ℤ) → Reads (itoa z) (itoa z)
unfolding itoa
itoa-Reads (pos n) =
    let clean = decimal_clean (digits (suc n) n) (digits-All (suc n) n) in
    let (c, s, e) = digits-cons n n in word-Reads (digits (suc n) n) (clean.0, clean.1, λ empty. cc)
itoa-Reads (negsuc n) =
    let clean = decimal_clean (digits (suc (suc n)) (suc n)) (digits-All (suc (suc n)) (suc n)) in
    word-Reads (itoa (negsuc n)) (ground arith, ground arith, λ empty. cc)
