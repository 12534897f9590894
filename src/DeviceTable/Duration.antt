-- ===== src/DeviceTable/Duration.antt =====
-- server/ui_windows.go: the text of a duration.
use Prim.Native.Char.{Char}
use remote_mouse.Common.{
  ℕ, zero, suc, ◌+◌, ◌*◌, ◌/◌, ◌%◌, ◌^◌, ◌<◌, ◌≤◌, false, some, List, [], ◌∷◌, ◌++◌, length,
  length-append, ltb, lt→ltb, ◌≡◌, refl, ◌∙◌, arith, Bool-cases, inl, inr,
}
use remote_mouse.Common.Int.{ℤ, pos}
use remote_mouse.Decimal.{itoa, atoi, digits, digit_value, parse_digits, parse_decimal, digit_char}
use remote_mouse.Decimal.Itoa.{atoi-itoa, parse_digits-digits, digits-cons}
use remote_mouse.DeviceTable.{two_digits, whole_seconds, fmt_dur}

zero_padded : (n : ℕ) → n < 10 → atoi ("0" ∷ itoa (pos n)) ≡ some (pos n)
unfolding atoi itoa parse_decimal parse_digits digit_value
zero_padded n h =
    let (c, s, e) = digits-cons n n in
    let value = parse_digits-digits false (suc n) n (omega arith) in
    let small = lt→ltb n (2 ^ 63) (omega arith) in rw value (rw small refl)

pub two_digits-atoi : (n : ℕ) → n < 2 ^ 63 → atoi (two_digits n) ≡ some (pos n)
unfolding two_digits
two_digits-atoi n h = elim (Bool-cases (ltb n 10)) [
  | inl small ↦ rw small (zero_padded n (ground arith))
  | inr big ↦ rw big (atoi-itoa n h)
]

length-digits_one : (fuel n : ℕ) → n < 10 → length (digits (suc fuel) n) ≡ 1
unfolding digits
length-digits_one fuel n h = rw (lt→ltb n 10 h) refl

length-digits_two : (fuel n : ℕ) → 10 ≤ n → n < 100 → length (digits (suc (suc fuel)) n) ≡ 2
unfolding digits
length-digits_two fuel n lo hi =
    let big : ltb n 10 ≡ false = ground arith in
    rw big (
      length-append (digits (suc fuel) (n / 10)) (digit_char (n % 10) ∷ [])
      ∙ omega (arith, length-digits_one fuel (n / 10) (omega arith)))

pub length-two_digits : (n : ℕ) → n < 100 → length (two_digits n) ≡ 2
unfolding two_digits itoa
length-two_digits zero h = unfold digits in refl
length-two_digits (suc n) h = elim (Bool-cases (ltb (suc n) 10)) [
  | inl small ↦ rw small (omega (arith, length-digits_one (suc n) (suc n) (ground arith)))
  | inr big ↦ rw big (length-digits_two n (suc n) (ground arith) h)
]

-- If a duration has fewer than 2^63 whole seconds, as every time.Duration has, then it is shown as
-- hours, minutes and seconds between colons, which read back as numbers that make up its whole
-- seconds, none if it is negative. Minutes and seconds are below 60 and have two digits, as the hours
-- have if they are below 100.
pub fmt_dur_reads_back :
    (d : ℤ)
    → whole_seconds d < 2 ^ 63
    → (h m s : List Char) × (hours minutes seconds : ℕ) × (fmt_dur d ≡ h ++ ":" ∷ m ++ ":" ∷ s)
      × (atoi h ≡ some (pos hours))
      × (atoi m ≡ some (pos minutes))
      × (atoi s ≡ some (pos seconds))
      × (hours * 3600 + minutes * 60 + seconds ≡ whole_seconds d)
      × (minutes < 60)
      × (seconds < 60)
      × (length m ≡ 2)
      × (length s ≡ 2)
      × (hours < 100 → length h ≡ 2)
unfolding fmt_dur
fmt_dur_reads_back d small =
    let total = whole_seconds d in
    (
      two_digits (total / 3600),
      two_digits (total % 3600 / 60),
      two_digits (total % 60),
      total / 3600,
      total % 3600 / 60,
      total % 60,
      refl,
      two_digits-atoi (total / 3600) (omega arith),
      two_digits-atoi (total % 3600 / 60) (omega arith),
      two_digits-atoi (total % 60) (omega arith),
      omega arith,
      omega arith,
      omega arith,
      length-two_digits (total % 3600 / 60) (omega arith),
      length-two_digits (total % 60) (omega arith),
      λ h. length-two_digits (total / 3600) h,
    )
