-- ===== src/Decimal/Examples.antt =====
-- Runs of the decimal conversions.
use remote_mouse.Common.{none, some, ◌≡◌, refl}
use remote_mouse.Common.Int.{pos, negsuc}
use remote_mouse.Common.Texts.{chars, text}
use remote_mouse.Decimal.{
  itoa, digits, digit_char, atoi, parse_decimal, parse_int, parse_digits, digit_value,
  underscore_ok,
}

prints : text (itoa (pos 27500)) ≡ "27500"
unfolding itoa digits digit_char
prints = refl

prints_negative : text (itoa (negsuc 41)) ≡ "-42"
unfolding itoa digits digit_char
prints_negative = refl

reads_signed : atoi (chars "-42") ≡ some (negsuc 41)
unfolding atoi parse_decimal parse_digits digit_value
reads_signed = refl

refuses_words : atoi (chars "27x") ≡ none
unfolding atoi parse_decimal parse_digits digit_value
refuses_words = refl

reads_hexadecimal : parse_int (chars "0x_6B6c") ≡ some (pos 27500)
unfolding parse_int parse_digits digit_value underscore_ok
reads_hexadecimal = refl

refuses_loose_underscore : parse_int (chars "27__500") ≡ none
unfolding parse_int parse_digits digit_value underscore_ok
refuses_loose_underscore = refl
