-- ===== src/MacInjector.antt =====
-- server/injector_darwin.go: the injector of macOS, down to the calls of its C functions, oldest
-- first. A C int holds 32 bits. What CoreGraphics does with the calls is left out. Flag bits that are
-- joined are disjoint, so `|` is `+`.
pub mod Codes
mod Examples
use Prim.Native.Char.{code as code_point}
use remote_mouse.Common.{
  ℕ, ◌+◌, ◌-◌, ◌==◌, String, Bool, true, false, ◌&&◌, Option, none, some, List, [], ◌∷◌, ◌++◌,
  if◌then◌else◌, leb, str_eq, get_elem?,
}
use remote_mouse.Common.Int.{ℤ, pos, negsuc, int32, lt_int}
use remote_mouse.Inject.{Injector}
use remote_mouse.Keys.{
  has_bit, mod_ctrl, mod_alt, mod_shift, mod_meta, key_enter, key_back, key_tab, key_esc, key_del,
  key_arrow_up, key_arrow_down, key_arrow_left, key_arrow_right, key_home, key_end, key_pg_up,
  key_pg_dn, key_f1,
}
use remote_mouse.WinInjector.Keyboard.{utf16_units}

pub data CCall : Type 0 where
  c_move_rel : ℤ → ℤ → CCall
  c_move_abs : ℤ → ℤ → CCall
  c_button : ℤ → ℕ → CCall
  c_scroll : ℤ → ℤ → CCall
  c_type_text : List ℕ → CCall
  c_key_event : ℤ → ℕ → ℕ → CCall

unfoldable pub btn_code : String → ℤ
btn_code b = if str_eq b "right" then pos 1 else if str_eq b "middle" then pos 2 else pos 0

abbrev pub f_keys : List ℕ
f_keys = 122 ∷ 120 ∷ 99 ∷ 118 ∷ 96 ∷ 97 ∷ 98 ∷ 100 ∷ 101 ∷ 109 ∷ 103 ∷ 111 ∷ []

abbrev pub or_unmapped : Option ℕ → ℤ
or_unmapped none = negsuc 0
or_unmapped (some k) = pos k

-- The keys after the switch: F1 to F12.
unfoldable pub mac_function_key : ℕ → ℤ
mac_function_key code =
    if leb key_f1 code && leb code (key_f1 + 11)
    then or_unmapped (get_elem? f_keys (code - key_f1))
    else negsuc 0

unfoldable pub mac_key : ℤ → ℤ
mac_key (negsuc n) = negsuc 0
mac_key (pos code) =
    if code == key_enter
    then pos 36
    else if code == key_back
    then pos 51
    else if code == key_tab
    then pos 48
    else if code == key_esc
    then pos 53
    else if code == key_del
    then pos 117
    else if code == key_arrow_left
    then pos 123
    else if code == key_arrow_right
    then pos 124
    else if code == key_arrow_down
    then pos 125
    else if code == key_arrow_up
    then pos 126
    else if code == key_home
    then pos 115
    else if code == key_end
    then pos 119
    else if code == key_pg_up
    then pos 116
    else if code == key_pg_dn
    then pos 121
    else if code == b'A'
    then pos 0
    else if code == b'C'
    then pos 8
    else if code == b'V'
    then pos 9
    else if code == b'X'
    then pos 7
    else if code == b'Z'
    then pos 6
    else mac_function_key code

unfoldable pub mac_flags : ℤ → ℕ
mac_flags mods =
    (if has_bit mods mod_meta then 0x100000 else 0)
    + (if has_bit mods mod_shift then 0x20000 else 0)
    + (if has_bit mods mod_ctrl then 0x40000 else 0)
    + (if has_bit mods mod_alt then 0x80000 else 0)

abbrev pub c_bool : Bool → ℕ
c_bool down = if down then 1 else 0

-- A code that is not mapped sends nothing.
unfoldable pub mac_key_event : ℤ → ℤ → Bool → List CCall → List CCall
mac_key_event code mods down calls =
    let vk = mac_key code in
    if lt_int vk (pos 0)
    then calls
    else calls ++ c_key_event (int32 vk) (mac_flags mods) (c_bool down) ∷ []

unfoldable pub mac_units : String → List ℕ
mac_units String.[] = []
mac_units (String.◌∷◌ c s) = utf16_units (code_point c) ++ mac_units s

abbrev pub type_units : List ℕ → List CCall → List CCall
type_units [] calls = calls
type_units (u ∷ us) calls = calls ++ c_type_text (u ∷ us) ∷ []

unfoldable pub mac_text : String → List CCall → List CCall
mac_text s calls = type_units (mac_units s) calls

abbrev pub mac_injector : Injector (List CCall)
mac_injector = record {
  move_rel = λ dx dy calls. calls ++ c_move_rel (int32 dx) (int32 dy) ∷ [];
  move_abs = λ nx ny calls. calls ++ c_move_abs (int32 nx) (int32 ny) ∷ [];
  button = λ b d calls. calls ++ c_button (int32 (btn_code b)) (c_bool d) ∷ [];
  scroll = λ dx dy calls. calls ++ c_scroll (int32 dx) (int32 dy) ∷ [];
  text = mac_text;
  key = mac_key_event;
  close = λ calls. calls;
}
