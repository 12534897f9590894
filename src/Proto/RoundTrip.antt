-- ===== src/Proto/RoundTrip.antt =====
-- server/proto.go: a message that is encoded and decoded again.
use remote_mouse.Common.{
  String, Bool, true, Option, none, some, [], ◌∷◌, ◌++◌, ◌≡◌, refl, ◌∙◌, sym, ap, inl, inr, arith,
  str_eq, eq_iff, Bool-cases,
}
use remote_mouse.Common.Int.{ℤ, pos, eq_int}
use remote_mouse.Proto.{
  In, zero_in, Object, text, string_field, int_field, StringField, IntField, t_key, devid_key,
  name_key, plat_key, ver_key, proof_key, b_key, s_key, dx_key, dy_key, x_key, y_key, code_key,
  mods_key, ts_key, omit_string, omit_int, omit_pointer, marshal, field_of, set_string, set_int,
  fits_int64, Decoded, store, store_named, store_pair, decode_fields, unmarshal, object,
}

decode_fields-append :
    (o r : Object) (d : Decoded) → decode_fields (o ++ r) d ≡ decode_fields r (decode_fields o d)
unfolding decode_fields
decode_fields-append [] r d = refl
decode_fields-append (kv ∷ o) r d = decode_fields-append o r (store_pair kv d)

abbrev get_string : StringField → In → String
get_string t_key m = m.t
get_string devid_key m = m.devid
get_string name_key m = m.name
get_string plat_key m = m.plat
get_string ver_key m = m.ver
get_string proof_key m = m.proof
get_string b_key m = m.b
get_string s_key m = m.s

abbrev get_int : IntField → In → ℤ
get_int dx_key m = m.dx
get_int dy_key m = m.dy
get_int x_key m = m.x
get_int y_key m = m.y
get_int code_key m = m.code
get_int mods_key m = m.mods
get_int ts_key m = m.ts

set-get_string : (f : StringField) (m : In) → set_string f (get_string f m) m ≡ m
set-get_string t_key m = refl
set-get_string _ m = refl

set-get_int : (f : IntField) (m : In) → set_int f (get_int f m) m ≡ m
set-get_int dx_key m = refl
set-get_int _ m = refl

eq_int_sound : (a b : ℤ) → eq_int a b ≡ true → a ≡ b
eq_int_sound a b h = ground arith

-- A field that `omitempty` leaves out was already at its zero value.
decode-omit_string :
    (k : String) (f : StringField) (v : String) (m : In)
    → field_of k ≡ some (string_field f)
    → get_string f m ≡ ""
    → decode_fields (omit_string k v) (m, true) ≡ (set_string f v m, true)
unfolding decode_fields omit_string
decode-omit_string k f v m e z = elim (Bool-cases (str_eq v "")) [
  | inl h ↦
      let e' : v ≡ get_string f m = (eq_iff v "").0 h ∙ sym z in
      rw h (rw e' (ap (λ (n : In). let r : Decoded = (n, true) in r) (sym (set-get_string f m))))
  | inr h ↦ rw h (unfold store_pair store_named store in rw (e, store_named))
]

decode-omit_int :
    (k : String) (f : IntField) (z : ℤ) (m : In)
    → field_of k ≡ some (int_field f)
    → get_int f m ≡ pos 0
    → fits_int64 z ≡ true
    → decode_fields (omit_int k z) (m, true) ≡ (set_int f z m, true)
unfolding decode_fields omit_int
decode-omit_int k f z m e o fit = elim (Bool-cases (eq_int z (pos 0))) [
  | inl h ↦
      let e' : z ≡ get_int f m = eq_int_sound z (pos 0) h ∙ sym o in
      rw h (rw e' (ap (λ (n : In). let r : Decoded = (n, true) in r) (sym (set-get_int f m))))
  | inr h ↦ rw h (unfold store_pair store_named store in rw (e, store_named) (rw fit))
]

decode-omit_pointer :
    (v : Option Bool) (m : In)
    → m.down ≡ none
    → decode_fields (omit_pointer "down" v) (m, true) ≡ (record m { down = v }, true)
unfolding decode_fields omit_pointer store_pair store_named store field_of
decode-omit_pointer none m o = ground arith
decode-omit_pointer (some v) m o = refl

-- The same with the fields that follow.
then_string :
    (k : String) (f : StringField) (v : String) (m : In) (r : Object)
    → field_of k ≡ some (string_field f)
    → get_string f m ≡ ""
    → decode_fields (omit_string k v ++ r) (m, true) ≡ decode_fields r (set_string f v m, true)
then_string k f v m r e z =
    decode_fields-append (omit_string k v) r (m, true)
    ∙ ap (decode_fields r) (decode-omit_string k f v m e z)

then_int :
    (k : String) (f : IntField) (z : ℤ) (m : In) (r : Object)
    → field_of k ≡ some (int_field f)
    → get_int f m ≡ pos 0
    → fits_int64 z ≡ true
    → decode_fields (omit_int k z ++ r) (m, true) ≡ decode_fields r (set_int f z m, true)
then_int k f z m r e o fit =
    decode_fields-append (omit_int k z) r (m, true)
    ∙ ap (decode_fields r) (decode-omit_int k f z m e o fit)

then_pointer :
    (v : Option Bool) (m : In) (r : Object)
    → m.down ≡ none
    → decode_fields (omit_pointer "down" v ++ r) (m, true)
      ≡ decode_fields r (record m { down = v }, true)
then_pointer v m r o =
    decode_fields-append (omit_pointer "down" v) r (m, true)
    ∙ ap (decode_fields r) (decode-omit_pointer v m o)

then_type :
    (v : String) (m : In) (r : Object)
    → decode_fields (("t", text v) ∷ r) (m, true) ≡ decode_fields r (record m { t = v }, true)
unfolding decode_fields store_pair store_named store field_of
then_type v m r = refl

-- Every integer field holds a value of Go's 64-bit int.
pub record IsGoMessage (m : In) : Type 0 where
  pub dx_fits : fits_int64 m.dx ≡ true
  pub dy_fits : fits_int64 m.dy ≡ true
  pub x_fits : fits_int64 m.x ≡ true
  pub y_fits : fits_int64 m.y ≡ true
  pub code_fits : fits_int64 m.code ≡ true
  pub mods_fits : fits_int64 m.mods ≡ true
  pub ts_fits : fits_int64 m.ts ≡ true

-- A message whose integers fit Go's int is encoded to an object that decodes to that message with
-- no error, whatever fields `omitempty` leaves out.
pub unmarshal-marshal : (m : In) → IsGoMessage m → unmarshal (object (marshal m)) ≡ (m, true)
unfolding unmarshal marshal field_of
unmarshal-marshal m v =
    then_type m.t zero_in _
    ∙ then_string "devid" devid_key m.devid _ _ refl refl
    ∙ then_string "name" name_key m.name _ _ refl refl
    ∙ then_string "platform" plat_key m.plat _ _ refl refl
    ∙ then_string "ver" ver_key m.ver _ _ refl refl
    ∙ then_string "proof" proof_key m.proof _ _ refl refl
    ∙ then_int "dx" dx_key m.dx _ _ refl refl v.dx_fits
    ∙ then_int "dy" dy_key m.dy _ _ refl refl v.dy_fits
    ∙ then_int "x" x_key m.x _ _ refl refl v.x_fits
    ∙ then_int "y" y_key m.y _ _ refl refl v.y_fits
    ∙ then_string "b" b_key m.b _ _ refl refl
    ∙ then_pointer m.down _ _ refl
    ∙ then_string "s" s_key m.s _ _ refl refl
    ∙ then_int "code" code_key m.code _ _ refl refl v.code_fits
    ∙ then_int "mods" mods_key m.mods _ _ refl refl v.mods_fits
    ∙ decode-omit_int "ts" ts_key m.ts _ refl refl v.ts_fits
