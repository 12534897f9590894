-- ===== src/MacInjector/Examples.antt =====
-- Tests and instances for server/injector_darwin.go.
use remote_mouse.Common.{
  ℕ, ◌%◌, ◌<◌, String, Bool, true, false, Option, none, some, List, [], ◌∷◌, ◌≡◌, ◌≢◌, refl, arith,
}
use remote_mouse.Common.Int.{ℤ, pos, negsuc, neg_part}
use remote_mouse.Keys.{has_bit}
use remote_mouse.WinInjector.Typing.{code_points}
use remote_mouse.MacInjector.{
  c_key_event, mac_key, mac_function_key, mac_flags, mac_key_event, mac_text, type_units,
}
use remote_mouse.MacInjector.Codes.{mac_text_arrives, join_units}

-- Command and C, and a media key, which is not mapped.
command_c : mac_key_event (pos 67) (pos 8) true [] ≡ c_key_event (pos 8) 0x100000 1 ∷ []
unfolding mac_key_event mac_key mac_flags has_bit remote_mouse.Common.Int.int32
command_c = refl

media_key : mac_key_event (pos 200) (pos 0) true [] ≡ []
unfolding mac_key_event mac_key mac_function_key
media_key = refl

escape_mapped : neg_part (mac_key (pos 4)) ≡ 0
unfolding mac_key
escape_mapped = refl

mac_text_arrives_example :
    (us : List ℕ) × (mac_text "h😀" [] ≡ type_units us []) × (join_units none us ≡ code_points "h😀")
mac_text_arrives_example = mac_text_arrives "h😀" []
