-- ===== src/Proto/Size.antt =====
-- server/proto.go: how many bytes the JSON text of an encoded message has, as encoding/json writes
-- it (with its escapes for quotes, control characters and the characters of HTML).
use Prim.Native.Char.{code as code_point}
use remote_mouse.Common.{
  ℕ, zero, suc, ◌+◌, ◌*◌, ◌/◌, ◌≤◌, String, true, false, ◌||◌, [], ◌∷◌, ltb, ◌==◌, if◌then◌else◌,
  arith,
}
use remote_mouse.Common.Int.{ℤ, pos, negsuc}
use remote_mouse.Proto.{
  Object, Value, null, boolean, integer, fraction, text, composite, Line, object,
}

unfoldable pub utf8_size : ℕ → ℕ
utf8_size c = if ltb c 0x80 then 1 else if ltb c 0x800 then 2 else if ltb c 0x10000 then 3 else 4

-- \b \t \n \f \r have short escapes, any other control character \u00xx.
unfoldable pub char_size : ℕ → ℕ
unfolding utf8_size
char_size c =
    if c == b'"' || c == 0x5c
    then 2
    else if ltb c 0x20
    then (if c == 8 || c == 9 || c == 10 || c == 12 || c == 13 then 2 else 6)
    else if c == b'<' || c == b'>' || c == b'&' || c == 0x2028 || c == 0x2029
    then 6
    else utf8_size c

-- The characters of a text.
abbrev pub count : String → ℕ
count String.[] = 0
count (String.◌∷◌ c s) = suc (count s)

unfoldable pub text_size : String → ℕ
text_size String.[] = 0
text_size (String.◌∷◌ c s) = char_size (code_point c) + text_size s

-- Twenty rounds are enough for an int64.
unfoldable pub digits : ℕ → ℕ → ℕ
digits zero n = 1
digits (suc f) n = let rest = digits f (n / 10) in if ltb n 10 then 1 else suc rest

unfoldable pub int_size : ℤ → ℕ
int_size (pos n) = digits 20 n
int_size (negsuc n) = 1 + digits 20 (n + 1)

-- `marshal` writes no fraction and no composite value.
unfoldable pub value_size : Value → ℕ
value_size null = 4
value_size (boolean true) = 4
value_size (boolean false) = 5
value_size (integer z) = int_size z
value_size fraction = 0
value_size (text s) = 2 + text_size s
value_size composite = 0

-- A field is `"key":value`, with a comma or a brace behind it.
unfoldable pub fields_size : Object → ℕ
fields_size [] = 0
fields_size ((k, v) ∷ o) = text_size k + 4 + value_size v + fields_size o

unfoldable pub object_size : Object → ℕ
object_size o = 1 + fields_size o

-- The line of an object; the newline that `encode` adds ends it.
abbrev pub line_of : Object → Line
line_of o = record { size = object_size o; body = object o }

digits-le : (f n : ℕ) → digits f n ≤ f + 1
unfolding digits
digits-le zero n = omega arith
digits-le (suc f) n = ground (arith, digits-le f (n / 10))

pub int_size-le : (z : ℤ) → int_size z ≤ 22
unfolding int_size
int_size-le (pos n) = omega (arith, digits-le 20 n)
int_size-le (negsuc n) = omega (arith, digits-le 20 (n + 1))

char_size-le : (c : ℕ) → char_size c ≤ 6
unfolding char_size
char_size-le c = ground arith

pub text_size-le : (s : String) → text_size s ≤ 6 * count s
unfolding text_size
text_size-le String.[] = omega arith
text_size-le (String.◌∷◌ c s) = omega (arith, char_size-le (code_point c), text_size-le s)
