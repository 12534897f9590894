-- ===== src/Decimal.antt =====
-- The decimal texts that server/ writes and reads: strconv.Itoa, strconv.Atoi, and the value of an
-- integer flag, which flag.IntVar reads by strconv.ParseInt(s, 0, 64).
pub mod Itoa
mod Examples
use Prim.Native.Char.{Char, code as code_point}
use remote_mouse.Common.{
  ℕ, zero, suc, ◌+◌, ◌-◌, ◌*◌, ◌/◌, ◌%◌, ◌^◌, ◌==◌, Bool, true, false, not, ◌&&◌, ◌||◌, Option,
  none, some, List, [], ◌∷◌, ◌++◌, if◌then◌else◌, ltb, leb, length, any_of,
}
use remote_mouse.Common.Int.{ℤ, pos, negsuc}
use remote_mouse.Common.Texts.{is_char}

unfoldable pub digit_char : ℕ → Char
digit_char zero = "0"
digit_char (suc zero) = "1"
digit_char (suc (suc zero)) = "2"
digit_char (suc (suc (suc zero))) = "3"
digit_char (suc (suc (suc (suc zero)))) = "4"
digit_char (suc (suc (suc (suc (suc zero))))) = "5"
digit_char (suc (suc (suc (suc (suc (suc zero)))))) = "6"
digit_char (suc (suc (suc (suc (suc (suc (suc zero))))))) = "7"
digit_char (suc (suc (suc (suc (suc (suc (suc (suc zero)))))))) = "8"
digit_char _ = "9"

-- The digits of n, on fuel above n.
unfoldable pub digits : ℕ → ℕ → List Char
digits zero n = []
digits (suc fuel) n =
    let front = digits fuel (n / 10) in
    if ltb n 10 then digit_char n ∷ [] else front ++ digit_char (n % 10) ∷ []

unfoldable pub itoa : ℤ → List Char
itoa (pos n) = digits (suc n) n
itoa (negsuc n) = "-" ∷ digits (suc (suc n)) (suc n)

abbrev pub lower_code : ℕ → ℕ
lower_code c = if leb 65 c && leb c 90 then c + 32 else c

-- The value of a digit or letter, 36 or more for any other character.
unfoldable pub digit_value : Char → ℕ
digit_value c =
    let l = lower_code (code_point c) in
    if leb 48 l && leb l 57 then l - 48 else if leb 97 l && leb l 122 then l - 87 else 36

-- The digits of a number in a base. Underscores are passed over where the base is read off the text.
unfoldable pub parse_digits : Bool → ℕ → ℕ → List Char → Option ℕ
parse_digits under base acc [] = some acc
parse_digits under base acc (c ∷ s) =
    let skip = parse_digits under base acc s in
    let next = parse_digits under base (acc * base + digit_value c) s in
    if under && is_char 95 c then skip else if ltb (digit_value c) base then next else none

-- The base that a prefix names, with what follows it.
abbrev pub strip_base : List Char → ℕ × List Char
strip_base [] = (10, [])
strip_base (c ∷ []) = if is_char 48 c then (8, []) else (10, c ∷ [])
strip_base (c ∷ d ∷ []) = if is_char 48 c then (8, d ∷ []) else (10, c ∷ d ∷ [])
strip_base (c ∷ d ∷ e ∷ s) =
    let l = lower_code (code_point d) in
    if not (is_char 48 c)
    then (10, c ∷ d ∷ e ∷ s)
    else if l == 98
    then (2, e ∷ s)
    else if l == 111
    then (8, e ∷ s)
    else if l == 120
    then (16, e ∷ s)
    else (8, d ∷ e ∷ s)

-- Underscores stand only between digits, or between the prefix and a digit. `last` is what was read
-- before: nothing yet, a digit, an underscore or anything else.
pub data Seen : Type 0 where
  nothing_yet digit underscore other : Seen

abbrev pub was_digit : Seen → Bool
was_digit digit = true
was_digit _ = false

abbrev pub was_underscore : Seen → Bool
was_underscore underscore = true
was_underscore _ = false

abbrev pub is_digit : Bool → Char → Bool
is_digit hex c =
    let l = lower_code (code_point c) in (leb 48 l && leb l 57) || (hex && leb 97 l && leb l 102)

unfoldable pub underscores_from : Bool → Seen → List Char → Bool
underscores_from hex last [] = not (was_underscore last)
underscores_from hex last (c ∷ s) =
    let after_digit = underscores_from hex digit s in
    let after_underscore = underscores_from hex underscore s in
    let after_other = underscores_from hex other s in
    if is_digit hex c
    then after_digit
    else if is_char 95 c
    then was_digit last && after_underscore
    else not (was_underscore last) && after_other

unfoldable pub underscore_ok : List Char → Bool
unfolding underscores_from
underscore_ok [] = true
underscore_ok (c ∷ []) = underscores_from false nothing_yet (c ∷ [])
underscore_ok (c ∷ d ∷ s) =
    let l = lower_code (code_point d) in
    if is_char 48 c && (l == 98 || l == 111 || l == 120)
    then underscores_from (l == 120) digit s
    else underscores_from false nothing_yet (c ∷ d ∷ s)

abbrev pub in_range : Bool → Option ℕ → Option ℤ
in_range negative none = none
in_range false (some n) = if ltb n (2 ^ 63) then some (pos n) else none
in_range true (some zero) = some (pos 0)
in_range true (some (suc n)) = if ltb n (2 ^ 63) then some (negsuc n) else none

abbrev pub non_empty : List Char → Option ℕ → Option ℕ
non_empty [] o = none
non_empty (c ∷ s) o = o

-- strconv.Atoi: base ten, no underscores.
unfoldable pub parse_decimal : Bool → List Char → Option ℤ
parse_decimal negative s = in_range negative (non_empty s (parse_digits false 10 0 s))

unfoldable pub atoi : List Char → Option ℤ
unfolding parse_decimal
atoi [] = none
atoi (c ∷ s) =
    if is_char 43 c
    then parse_decimal false s
    else if is_char 45 c
    then parse_decimal true s
    else parse_decimal false (c ∷ s)

-- strconv.ParseInt in base zero.
unfoldable pub parse_unsigned : Bool → List Char → Option ℤ
unfolding underscore_ok
parse_unsigned negative s =
    let (base, body) = strip_base s in
    if any_of (is_char 95) body && not (underscore_ok s)
    then none
    else in_range negative (non_empty s (parse_digits true base 0 body))

unfoldable pub parse_int : List Char → Option ℤ
unfolding parse_unsigned
parse_int [] = none
parse_int (c ∷ s) =
    if is_char 43 c
    then parse_unsigned false s
    else if is_char 45 c
    then parse_unsigned true s
    else parse_unsigned false (c ∷ s)
