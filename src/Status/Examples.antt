-- ===== src/Status/Examples.antt =====
-- Tests for the list of devices on the status pipe. A time is written by its number of digits here.
use remote_mouse.Common.{none, some, [], ◌∷◌, ◌≡◌, refl, ltb, if◌then◌else◌}
use remote_mouse.Clients.{Client}
use remote_mouse.Status.{TimeText, encode_clients, decode_clients, no_bytes}

abbrev tens : TimeText
tens = record { format = λ t. if ltb t 10 then some "soon" else none; parse = λ s. some 3 }

abbrev phone : Client
phone = record { name = "phone"; addr = "10.0.0.7"; since = 3; seq = 9 }

keeps_the_row :
    decode_clients tens (encode_clients tens (phone ∷ [])) ≡ some (record phone { seq = 0 } ∷ [])
unfolding encode_clients decode_clients
keeps_the_row = refl

one_bad_time :
    decode_clients tens (encode_clients tens (phone ∷ record phone { since = 99 } ∷ [])) ≡ some []
unfolding encode_clients decode_clients
one_bad_time = refl

nothing_sent : decode_clients tens no_bytes ≡ some []
unfolding decode_clients
nothing_sent = refl
