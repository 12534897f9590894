-- ===== src/Proto/Examples.antt =====
-- Tests and instances for server/proto.go.
use remote_mouse.Common.{◌≡◌, refl, true, false, some, [], ◌∷◌, arith}
use remote_mouse.Common.Int.{negsuc}
use remote_mouse.Proto.{
  In, zero_in, Object, text, integer, boolean, composite, marshal, unmarshal, object, decode_fields,
  store_pair, store_named, store, field_of, omit_string, omit_int, omit_pointer,
}
use remote_mouse.Proto.RoundTrip.{unmarshal-marshal}

abbrev button_up : In
button_up = record zero_in { t = "button"; b = "right"; down = some false }

-- `omitempty` drops the zero fields and keeps a false that a pointer leads to.
marshal-button_up :
    marshal button_up ≡ ("t", text "button") ∷ ("b", text "right") ∷ ("down", boolean false) ∷ []
unfolding marshal omit_string omit_int omit_pointer
marshal-button_up = refl

unmarshal-marshal_example : unmarshal (object (marshal button_up)) ≡ (button_up, true)
unmarshal-marshal_example = unmarshal-marshal button_up (ground arith)

-- A field of the wrong type is an error, and the fields after it are stored all the same; names are
-- found whatever their case.
abbrev odd_move : Object
odd_move =
    ("T", text "move") ∷ ("dx", text "1") ∷ ("Dy", integer (negsuc 3)) ∷ ("z", composite) ∷ []

unmarshal-odd_move :
    unmarshal (object odd_move) ≡ (record zero_in { t = "move"; dy = negsuc 3 }, false)
unfolding unmarshal decode_fields store_pair store_named store field_of
unmarshal-odd_move = refl
