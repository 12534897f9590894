-- ===== src/Proto.antt =====
-- server/proto.go: the client message `In`, its JSON object (`encode`, with `omitempty`) and what
-- json.Unmarshal stores of an object into a zero `In`. A line of the wire is a JSON document with
-- its size; the text of JSON is not modelled.
pub mod RoundTrip
pub mod Bounds
pub mod Size
mod Examples
use Prim.Native.Char.{code as code_point}
use remote_mouse.Common.{
  ℕ, ◌+◌, ◌^◌, String, Bool, true, false, ◌&&◌, ◌||◌, Option, none, some, List, [], ◌∷◌, ◌++◌, leb,
  ltb, ◌==◌, if◌then◌else◌, str_eq,
}
use remote_mouse.Common.Int.{ℤ, pos, negsuc, eq_int}

-- `Down` is a pointer: nil when the field is absent.
pub record In : Type 0 where
  pub t : String
  pub devid : String
  pub name : String
  pub plat : String
  pub ver : String
  pub proof : String
  pub dx : ℤ
  pub dy : ℤ
  pub x : ℤ
  pub y : ℤ
  pub b : String
  pub down : Option Bool
  pub s : String
  pub code : ℤ
  pub mods : ℤ
  pub ts : ℤ

abbrev pub zero_in : In
zero_in = record {
  t = "";
  devid = "";
  name = "";
  plat = "";
  ver = "";
  proof = "";
  dx = pos 0;
  dy = pos 0;
  x = pos 0;
  y = pos 0;
  b = "";
  down = none;
  s = "";
  code = pos 0;
  mods = pos 0;
  ts = pos 0;
}

-- A JSON value, as far as a field of `In` tells them apart: `fraction` is a number that is not
-- written as an integer, `composite` an array or an object.
pub data Value : Type 0 where
  null : Value
  boolean : Bool → Value
  integer : ℤ → Value
  fraction : Value
  text : String → Value
  composite : Value

abbrev pub Object : Type 0
Object = List (String × Value)

-- What one line holds.
pub data Document : Type 0 where
  object : Object → Document
  null_document : Document
  other_document : Document
  syntax_error : Document

pub record Line : Type 0 where
  pub size : ℕ
  pub body : Document

-- The buffer of the scanners grows to 1<<20 bytes, the newline included.
abbrev pub max_line : ℕ
max_line = 2 ^ 20

abbrev pub fits : Line → Bool
fits l = ltb l.size max_line

unfoldable pub omit_string : String → String → Object
omit_string k v = if str_eq v "" then [] else (k, text v) ∷ []

unfoldable pub omit_int : String → ℤ → Object
omit_int k z = if eq_int z (pos 0) then [] else (k, integer z) ∷ []

unfoldable pub omit_pointer : String → Option Bool → Object
omit_pointer k none = []
omit_pointer k (some v) = (k, boolean v) ∷ []

-- The fields in the order of the struct, zero values left out where the tag says `omitempty`.
unfoldable pub marshal : In → Object
marshal m =
    ("t", text m.t)
    ∷ (omit_string "devid" m.devid
        ++ (omit_string "name" m.name
            ++ (omit_string "platform" m.plat
                ++ (omit_string "ver" m.ver
                    ++ (omit_string "proof" m.proof
                        ++ (omit_int "dx" m.dx
                            ++ (omit_int "dy" m.dy
                                ++ (omit_int "x" m.x
                                    ++ (omit_int "y" m.y
                                        ++ (omit_string "b" m.b
                                            ++ (omit_pointer "down" m.down
                                                ++ (omit_string "s" m.s
                                                    ++ (omit_int "code" m.code
                                                        ++ (omit_int "mods" m.mods
                                                            ++ omit_int "ts" m.ts))))))))))))))

-- `encode` returns json.Marshal's error, which a struct of texts, numbers and a pointer never meets.
unfoldable pub encode : In → Option Object
encode m = some (marshal m)

-- The struct fields, by the way json.Unmarshal stores into them.
pub data StringField : Type 0 where
  t_key devid_key name_key plat_key ver_key proof_key b_key s_key : StringField

pub data IntField : Type 0 where
  dx_key dy_key x_key y_key code_key mods_key ts_key : IntField

pub data Field : Type 0 where
  string_field : StringField → Field
  int_field : IntField → Field
  down_field : Field

-- encoding/json finds a field by its name under case folding.
fold : ℕ → ℕ
fold c =
    if leb b'A' c && leb c b'Z'
    then c + 32
    else if c == 0x17f
    then b's'
    else if c == 0x212a
    then b'k'
    else c

unfoldable pub same_name : String → String → Bool
unfolding fold
same_name String.[] String.[] = true
same_name (String.◌∷◌ c u) (String.◌∷◌ d v) =
    fold (code_point c) == fold (code_point d) && same_name u v
same_name _ _ = false

abbrev pub names : List (String × Field)
names =
    ("t", string_field t_key)
    ∷ ("devid", string_field devid_key)
    ∷ ("name", string_field name_key)
    ∷ ("platform", string_field plat_key)
    ∷ ("ver", string_field ver_key)
    ∷ ("proof", string_field proof_key)
    ∷ ("dx", int_field dx_key)
    ∷ ("dy", int_field dy_key)
    ∷ ("x", int_field x_key)
    ∷ ("y", int_field y_key)
    ∷ ("b", string_field b_key)
    ∷ ("down", down_field)
    ∷ ("s", string_field s_key)
    ∷ ("code", int_field code_key)
    ∷ ("mods", int_field mods_key)
    ∷ ("ts", int_field ts_key)
    ∷ []

unfoldable pub find_field : String → List (String × Field) → Option Field
unfolding same_name
find_field k [] = none
find_field k ((n, f) ∷ r) = let rest = find_field k r in if same_name k n then some f else rest

abbrev pub set_string : StringField → String → In → In
set_string t_key v m = record m { t = v }
set_string devid_key v m = record m { devid = v }
set_string name_key v m = record m { name = v }
set_string plat_key v m = record m { plat = v }
set_string ver_key v m = record m { ver = v }
set_string proof_key v m = record m { proof = v }
set_string b_key v m = record m { b = v }
set_string s_key v m = record m { s = v }

abbrev pub set_int : IntField → ℤ → In → In
set_int dx_key v m = record m { dx = v }
set_int dy_key v m = record m { dy = v }
set_int x_key v m = record m { x = v }
set_int y_key v m = record m { y = v }
set_int code_key v m = record m { code = v }
set_int mods_key v m = record m { mods = v }
set_int ts_key v m = record m { ts = v }

abbrev pub fits_int64 : ℤ → Bool
fits_int64 (pos n) = ltb n (2 ^ 63)
fits_int64 (negsuc n) = ltb n (2 ^ 63)

-- The message so far, and whether no type error was saved; after one, decoding goes on.
abbrev pub Decoded : Type 0
Decoded = In × Bool

unfoldable pub store : Field → Value → Decoded → Decoded
store (string_field f) (text v) (m, ok) = (set_string f v m, ok)
store (int_field f) (integer z) (m, ok) = if fits_int64 z then (set_int f z m, ok) else (m, false)
store down_field (boolean v) (m, ok) = (record m { down = some v }, ok)
store down_field null (m, ok) = (record m { down = none }, ok)
store (string_field f) null d = d
store (int_field f) null d = d
store f v (m, ok) = (m, false)

unfoldable pub field_of : String → Option Field
unfolding find_field
field_of k = find_field k names

unfoldable pub store_named : Option Field → Value → Decoded → Decoded
store_named none v d = d
store_named (some f) v d = store f v d

unfoldable pub store_pair : String × Value → Decoded → Decoded
store_pair (k, v) d = store_named (field_of k) v d

unfoldable pub decode_fields : Object → Decoded → Decoded
decode_fields [] d = d
decode_fields (kv ∷ r) d = decode_fields r (store_pair kv d)

-- json.Unmarshal into a fresh `In`: the message, and whether the error is nil.
unfoldable pub unmarshal : Document → Decoded
unmarshal (object o) = decode_fields o (zero_in, true)
unmarshal null_document = (zero_in, true)
unmarshal other_document = (zero_in, false)
unmarshal syntax_error = (zero_in, false)
