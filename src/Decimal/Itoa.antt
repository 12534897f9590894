-- ===== src/Decimal/Itoa.antt =====
-- strconv.Itoa is read back by strconv.Atoi and by an integer flag.
use Prim.Native.Char.{Char, code as code_point}
use remote_mouse.Common.{
  ℕ, zero, suc, ◌+◌, ◌*◌, ◌/◌, ◌%◌, ◌^◌, ◌<◌, ◌≤◌, Bool, true, false, some, List, [], ◌∷◌, ◌++◌,
  ◌≡◌, refl, arith, subst, ltb, lt→ltb, Bool-cases, ap, ◌∙◌, inl, inr, All, All-append, any_of,
}
use remote_mouse.Common.Int.{pos}
use remote_mouse.Common.Texts.{is_char}
use remote_mouse.Decimal.{
  digit_char, digits, itoa, digit_value, parse_digits, atoi, parse_decimal, parse_int,
  parse_unsigned, strip_base,
}

-- A decimal digit.
abbrev pub IsDecimal : Char → Type 0
IsDecimal c = (48 ≤ code_point c) × (code_point c ≤ 57)

digit_char-code : (d : ℕ) → d < 10 → code_point (digit_char d) ≡ 48 + d
unfolding digit_char
digit_char-code zero h = refl
digit_char-code (suc zero) h = refl
digit_char-code (suc (suc zero)) h = refl
digit_char-code (suc (suc (suc zero))) h = refl
digit_char-code (suc (suc (suc (suc zero)))) h = refl
digit_char-code (suc (suc (suc (suc (suc zero))))) h = refl
digit_char-code (suc (suc (suc (suc (suc (suc zero)))))) h = refl
digit_char-code (suc (suc (suc (suc (suc (suc (suc zero))))))) h = refl
digit_char-code (suc (suc (suc (suc (suc (suc (suc (suc zero)))))))) h = refl
digit_char-code (suc (suc (suc (suc (suc (suc (suc (suc (suc zero))))))))) h = refl
digit_char-code (suc (suc (suc (suc (suc (suc (suc (suc (suc (suc d)))))))))) h =
    absurd (omega arith)

digit_char-IsDecimal : (d : ℕ) → d < 10 → IsDecimal (digit_char d)
digit_char-IsDecimal d h = omega (arith, digit_char-code d h)

digit_value-digit_char : (d : ℕ) → d < 10 → digit_value (digit_char d) ≡ d
unfolding digit_value
digit_value-digit_char d h = ground (arith, digit_char-code d h)

parse_digits-append :
    (under : Bool) (base acc n : ℕ) (s t : List Char)
    → parse_digits under base acc s ≡ some n
    → parse_digits under base acc (s ++ t) ≡ parse_digits under base n t
unfolding parse_digits
parse_digits-append under base acc n [] t h = ground arith
parse_digits-append under base acc n (c ∷ s) t h = ground (
  arith,
  parse_digits-append under base acc n s t,
  parse_digits-append under base (acc * base + digit_value c) n s t,
)

-- One digit more.
parse_digits-digit :
    (under : Bool) (acc d : ℕ)
    → d < 10
    → parse_digits under 10 acc (digit_char d ∷ []) ≡ some (acc * 10 + d)
unfolding parse_digits
parse_digits-digit under acc d h = ground (arith, digit_char-code d h, digit_value-digit_char d h)

-- The digits of n read back as n, whether or not underscores are passed over.
pub parse_digits-digits :
    (under : Bool) (fuel n : ℕ) → n < fuel → parse_digits under 10 0 (digits fuel n) ≡ some n
unfolding digits
parse_digits-digits under zero n h = absurd (omega arith)
parse_digits-digits under (suc fuel) n h = elim (Bool-cases (ltb n 10)) [
  | inl small ↦ rw small (
      let value : 0 * 10 + n ≡ n = omega arith in
      parse_digits-digit under 0 n (ground arith) ∙ ap some value)
  | inr big ↦ rw big (
      let front = parse_digits-digits under fuel (n / 10) (ground arith) in
      let last = parse_digits-digit under (n / 10) (n % 10) (omega arith) in
      let whole =
        parse_digits-append under 10 0 (n / 10) (digits fuel (n / 10)) (digit_char (n % 10) ∷ [])
          front in
      let value : (n / 10) * 10 + n % 10 ≡ n = omega arith in whole ∙ last ∙ ap some value)
]

pub digits-All : (fuel n : ℕ) → All IsDecimal (digits fuel n)
unfolding digits
digits-All zero n = tt
digits-All (suc fuel) n = elim (Bool-cases (ltb n 10)) [
  | inl small ↦ rw small (digit_char-IsDecimal n (ground arith), tt)
  | inr big ↦ rw big (
      All-append IsDecimal (digits fuel (n / 10)) (digit_char (n % 10) ∷ [])
        (digits-All fuel (n / 10)) (digit_char-IsDecimal (n % 10) (omega arith), tt))
]

cons_append : (s : List Char) (c : Char) → (d : Char) × (t : List Char) × (s ++ c ∷ [] ≡ d ∷ t)
cons_append [] c = (c, [], refl)
cons_append (d ∷ s) c = (d, s ++ c ∷ [], refl)

pub digits-cons : (fuel n : ℕ) → (c : Char) × (s : List Char) × (digits (suc fuel) n ≡ c ∷ s)
unfolding digits
digits-cons fuel n = elim (Bool-cases (ltb n 10)) [
  | inl small ↦ rw small (digit_char n, [], refl)
  | inr big ↦ rw big (cons_append (digits fuel (n / 10)) (digit_char (n % 10)))
]

-- The first digit of a number is zero only for zero, whose digits are "0".
pub first_digit :
    (fuel n : ℕ)
    → n < fuel
    → 0 < n
    → (c : Char) × (s : List Char) × (digits fuel n ≡ c ∷ s)
      × (49 ≤ code_point c)
      × (code_point c ≤ 57)
unfolding digits
first_digit zero n h p = absurd (omega arith)
first_digit (suc fuel) n h p = elim (Bool-cases (ltb n 10)) [
  | inl small ↦
      let lt : n < 10 = ground arith in
      rw small (
        digit_char n,
        [],
        refl,
        omega (arith, digit_char-code n lt),
        omega (arith, digit_char-code n lt),
      )
  | inr big ↦
      let (c, s, e, lo, hi) = first_digit fuel (n / 10) (ground arith) (ground arith) in
      rw (big, e) (c, s ++ digit_char (n % 10) ∷ [], refl, lo, hi)
]

strip_base-digit : (c : Char) (s : List Char) → 49 ≤ code_point c → strip_base (c ∷ s) ≡ (10, c ∷ s)
strip_base-digit c [] h = ground arith
strip_base-digit c (d ∷ []) h = ground arith
strip_base-digit c (d ∷ e ∷ s) h = ground arith

-- No digit is an underscore.
no_underscore : (s : List Char) → All IsDecimal s → any_of (is_char 95) s ≡ false
no_underscore [] h = refl
no_underscore (c ∷ s) h = ground (arith, no_underscore s)

parse_unsigned-digit :
    (c : Char) (s : List Char) (n : ℕ)
    → 49 ≤ code_point c
    → All IsDecimal (c ∷ s)
    → parse_digits true 10 0 (c ∷ s) ≡ some n
    → n < 2 ^ 63
    → parse_unsigned false (c ∷ s) ≡ some (pos n)
unfolding parse_unsigned
parse_unsigned-digit c s n lo dec value small =
    let clean = no_underscore (c ∷ s) dec in
    rw (strip_base-digit c s lo, clean, value) (rw (lt→ltb n (2 ^ 63) small) refl)

-- An integer flag reads back what strconv.Itoa wrote.
pub parse_int-itoa : (n : ℕ) → n < 2 ^ 63 → parse_int (itoa (pos n)) ≡ some (pos n)
unfolding parse_int itoa
parse_int-itoa zero h = unfold digits digit_char parse_digits parse_unsigned in refl
parse_int-itoa (suc m) h =
    let n : ℕ = suc m in
    let (c, s, e, lo, hi) = first_digit (suc n) n (omega arith) (omega arith) in
    let value : parse_digits true 10 0 (c ∷ s) ≡ some n =
      rw (← e) (parse_digits-digits true (suc n) n (omega arith)) in
    let dec : All IsDecimal (c ∷ s) = subst (All IsDecimal) e (digits-All (suc n) n) in
    let plus : is_char 43 c ≡ false = ground arith in
    let minus : is_char 45 c ≡ false = ground arith in
    rw (e, plus, minus) (parse_unsigned-digit c s n lo dec value h)

-- So does strconv.Atoi.
pub atoi-itoa : (n : ℕ) → n < 2 ^ 63 → atoi (itoa (pos n)) ≡ some (pos n)
unfolding atoi itoa
atoi-itoa zero h = unfold digits digit_char digit_value parse_digits parse_decimal in refl
atoi-itoa (suc m) h =
    let n : ℕ = suc m in
    let (c, s, e, lo, hi) = first_digit (suc n) n (omega arith) (omega arith) in
    let value : parse_digits false 10 0 (c ∷ s) ≡ some n =
      rw (← e) (parse_digits-digits false (suc n) n (omega arith)) in
    let plus : is_char 43 c ≡ false = ground arith in
    let minus : is_char 45 c ≡ false = ground arith in
    rw (e, plus, minus, value) (rw (lt→ltb n (2 ^ 63) h) refl)
