-- ===== src/Proto/Bounds.antt =====
-- server/proto.go: what any line can put into an `In`.
use remote_mouse.Common.{◌≡◌, true, some, none, [], ◌∷◌, arith}
use remote_mouse.Proto.{
  In, zero_in, Object, Document, Value, text, integer, boolean, null, Field, string_field,
  int_field, down_field, StringField, IntField, t_key, dx_key, set_string, set_int, fits_int64,
  field_of, Decoded, store, store_named, store_pair, decode_fields, unmarshal, object,
  null_document, other_document, syntax_error,
}
use remote_mouse.Proto.RoundTrip.{IsGoMessage}

zero_in-IsGoMessage : IsGoMessage zero_in
zero_in-IsGoMessage = ground arith

set_string-IsGoMessage :
    (f : StringField) (v : _) (m : In) → IsGoMessage m → IsGoMessage (set_string f v m)
set_string-IsGoMessage t_key v m h = ground arith
set_string-IsGoMessage _ v m h = ground arith

set_int-IsGoMessage :
    (f : IntField) (z : _) (m : In)
    → fits_int64 z ≡ true
    → IsGoMessage m
    → IsGoMessage (set_int f z m)
set_int-IsGoMessage dx_key z m e h = ground arith
set_int-IsGoMessage _ z m e h = ground arith

store-IsGoMessage :
    (f : Field) (v : Value) (d : Decoded) → IsGoMessage d.0 → IsGoMessage (store f v d).0
unfolding store
store-IsGoMessage (string_field f) (text v) d h = set_string-IsGoMessage f v d.0 h
store-IsGoMessage (int_field f) (integer z) d h = ground (arith, set_int-IsGoMessage f z d.0)
store-IsGoMessage down_field (boolean v) d h = ground arith
store-IsGoMessage down_field null d h = ground arith
store-IsGoMessage (string_field f) null d h = h
store-IsGoMessage (int_field f) null d h = h
store-IsGoMessage f v d h = h

decode_fields-IsGoMessage :
    (o : Object) (d : Decoded) → IsGoMessage d.0 → IsGoMessage (decode_fields o d).0
unfolding decode_fields store_pair store_named
decode_fields-IsGoMessage [] d h = h
decode_fields-IsGoMessage ((k, v) ∷ o) d h =
    decode_fields-IsGoMessage o (store_pair (k, v) d)
      (elim (field_of k) as (λ f. IsGoMessage (store_named f v d).0) [
        | none ↦ h
        | some f ↦ store-IsGoMessage f v d h
      ])

-- Whatever a line holds, malformed or ill-typed fields included, the integers that decoding leaves
-- in the message fit Go's int.
pub unmarshal-IsGoMessage : (d : Document) → IsGoMessage (unmarshal d).0
unfolding unmarshal
unmarshal-IsGoMessage (object o) = decode_fields-IsGoMessage o (zero_in, true) zero_in-IsGoMessage
unmarshal-IsGoMessage null_document = zero_in-IsGoMessage
unmarshal-IsGoMessage other_document = zero_in-IsGoMessage
unmarshal-IsGoMessage syntax_error = zero_in-IsGoMessage
