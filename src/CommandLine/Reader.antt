-- ===== src/CommandLine/Reader.antt =====
-- The steps of commandLineToArgv over backslashes, quotes and blanks.
use Prim.Native.Char.{Char, code as code_point}
use text.Mathlib.TextEquality.{Char-path}
use mathlib.Core.List.{append_assoc}
use remote_mouse.Common.{
  ℕ, zero, suc, ◌+◌, ◌/◌, ◌%◌, ◌==◌, Bool, true, false, not, ◌&&◌, List, [], ◌∷◌, ◌++◌, ◌≡◌, refl,
  sym, ap, ◌∙◌, arith, Bool-cases, inl, inr, ==_iff,
}
use remote_mouse.CommandLine.{
  is_quote, is_slash, is_blank, backslash, quote, backslashes, push, begins_with_quote,
  read_next_arg,
}

-- The text ends, or a blank follows.
abbrev pub Stops : List Char → Type 0
Stops [] = Unit
Stops (c ∷ s) = is_blank c ≡ true

abbrev pub after : List Char → List Char
after [] = []
after (c ∷ s) = s

slash_is : (c : Char) → is_slash c ≡ true → c ≡ backslash
slash_is c h = Char-path c backslash ((==_iff (code_point c) 92).0 h)

backslashes-suc :
    (n : ℕ) (s : List Char) → backslashes (suc n) ++ s ≡ backslashes n ++ backslash ∷ s
backslashes-suc zero s = refl
backslashes-suc (suc n) s = ap (◌∷◌ backslash) (backslashes-suc n s)

pub backslashes-slash :
    (n : ℕ) (c : Char) (s : List Char)
    → is_slash c ≡ true
    → backslashes (suc n) ++ s ≡ backslashes n ++ c ∷ s
backslashes-slash n c s h = rw (slash_is c h) (backslashes-suc n s)

push-push : (s t : List Char) (r : List Char × List Char) → push s (push t r) ≡ push (s ++ t) r
push-push s t (arg, rest) = ap (λ (a : List Char). (a, rest)) (sym (append_assoc s t arg))

-- The steps of the reader.
pub read-slash :
    (q : Bool) (n : ℕ) (c : Char) (s : List Char)
    → is_slash c ≡ true
    → read_next_arg false q n (c ∷ s) ≡ read_next_arg false q (suc n) s
unfolding read_next_arg
read-slash q n c s h = rw (slash_is c h) refl

pub read-plain :
    (q : Bool) (n : ℕ) (c : Char) (s : List Char)
    → is_slash c ≡ false
    → is_quote c ≡ false
    → is_blank c && not q ≡ false
    → read_next_arg false q n (c ∷ s) ≡ push (backslashes n ++ c ∷ []) (read_next_arg false q 0 s)
unfolding read_next_arg
read-plain q n c s a b d = rw (d, b, a) refl

pub read_backslashes :
    (q : Bool) (k n : ℕ) (s : List Char)
    → read_next_arg false q n (backslashes k ++ s) ≡ read_next_arg false q (k + n) s
read_backslashes q zero n s = ap (λ (m : ℕ). read_next_arg false q m s) (omega arith)
read_backslashes q (suc k) n s =
    read-slash q n backslash (backslashes k ++ s) refl
    ∙ read_backslashes q k (suc n) s
    ∙ ap (λ (m : ℕ). read_next_arg false q m s) (omega arith)

quote_not_blank : (c : Char) → is_quote c ≡ true → is_blank c ≡ false
quote_not_blank c h = ground arith

slash_not_blank : (c : Char) → is_slash c ≡ true → is_quote c ≡ false
slash_not_blank c h = ground arith

odd_quote :
    (q : Bool) (n : ℕ) (c : Char) (s : List Char)
    → is_quote c ≡ true
    → read_next_arg false q (suc (n + n)) (c ∷ s)
      ≡ push (backslashes n ++ c ∷ []) (read_next_arg false q 0 s)
unfolding read_next_arg
odd_quote q n c s h =
    let odd : (suc (n + n) % 2 == 0) ≡ false = ground arith in
    let half : suc (n + n) / 2 ≡ n = omega arith in rw (quote_not_blank c h, h, odd, half) refl

-- A quote after an even number of them closes the quoted text.
pub even_quote :
    (n : ℕ) (rest : List Char)
    → begins_with_quote rest ≡ false
    → read_next_arg false true (n + n) (quote ∷ rest)
      ≡ push (backslashes n) (read_next_arg false false 0 rest)
unfolding read_next_arg
even_quote n rest h =
    let even : ((n + n) % 2 == 0) ≡ true = ground arith in
    let half : (n + n) / 2 ≡ n = omega arith in rw (even, half, h) refl

-- A quote after an odd number of backslashes stands for itself.
pub read_literal :
    (q : Bool) (n : ℕ) (c : Char) (s : List Char)
    → is_quote c ≡ true
    → read_next_arg false q n (backslashes n ++ backslash ∷ c ∷ s)
      ≡ push (backslashes n ++ c ∷ []) (read_next_arg false q 0 s)
read_literal q n c s h =
    read_backslashes q n n (backslash ∷ c ∷ s)
    ∙ read-slash q (n + n) backslash (c ∷ s) refl
    ∙ odd_quote q n c s h

pub never_blank : (c : Char) → is_blank c && not true ≡ false
never_blank c = elim (Bool-cases (is_blank c)) [ inl h ↦ rw h refl | inr h ↦ rw h refl ]

pub read_end :
    (n : ℕ) (rest : List Char)
    → Stops rest
    → read_next_arg false false n rest ≡ (backslashes n, after rest)
unfolding read_next_arg
read_end n [] h = refl
read_end n (c ∷ s) h = rw h refl

pub regroup :
    (n : ℕ) (c : Char) (s rest : List Char)
    → push (backslashes n ++ c ∷ []) (push s (read_next_arg false false 0 rest))
      ≡ push (backslashes n ++ c ∷ s) (read_next_arg false false 0 rest)
regroup n c s rest =
    push-push (backslashes n ++ c ∷ []) s (read_next_arg false false 0 rest)
    ∙ ap (λ (t : List Char). push t (read_next_arg false false 0 rest))
        (append_assoc (backslashes n) (c ∷ []) s)
