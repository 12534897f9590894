-- ===== src/WinInjector/Keyboard.antt =====
-- server/injector_windows.go: Key and Text, and the injector as a whole.
use Prim.Native.Char.{code as code_point}
use remote_mouse.Common.{
  ℕ, ◌+◌, ◌-◌, ◌/◌, ◌%◌, ◌^◌, ◌==◌, String, Bool, true, false, ◌||◌, ◌&&◌, List, [], ◌∷◌, ◌++◌,
  if◌then◌else◌, leb, ltb,
}
use remote_mouse.Common.Int.{ℤ, pos, negsuc}
use remote_mouse.Inject.{Injector}
use remote_mouse.Keys.{
  has_bit, mod_ctrl, mod_alt, mod_shift, mod_meta, key_enter, key_back, key_tab, key_esc, key_del,
  key_arrow_up, key_arrow_down, key_arrow_left, key_arrow_right, key_home, key_end, key_pg_up,
  key_pg_dn, key_f1, key_vol_down, key_vol_up, key_mute, key_play_pause, key_next, key_prev,
}
use remote_mouse.WinInjector.{
  Input, keyboard, WinInjector, User32, send_many, move_rel, move_abs, button, scroll, key_extended,
  key_up, key_unicode,
}

unfoldable pub key_vk : ℕ → Bool → Input
key_vk vk up =
    let ext = (if vk == 0xAD || (leb 0xAE vk && leb vk 0xB3) then key_extended else 0) in
    keyboard (record { vk = vk; scan = 0; flags = ext + (if up then key_up else 0) })

abbrev pub mod_key : ℤ → ℕ → ℕ → Bool → List Input
mod_key mods bit vk up = if has_bit mods bit then key_vk vk up ∷ [] else []

unfoldable pub mod_keys : ℤ → Bool → List Input
mod_keys mods up =
    mod_key mods mod_ctrl 0x11 up
    ++ mod_key mods mod_shift 0x10 up
    ++ mod_key mods mod_alt 0x12 up
    ++ mod_key mods mod_meta 0x5B up

-- The keys of the second switch.
unfoldable pub vk_special : ℕ → ℕ
vk_special code =
    if code == key_enter
    then 0x0D
    else if code == key_back
    then 0x08
    else if code == key_tab
    then 0x09
    else if code == key_esc
    then 0x1B
    else if code == key_del
    then 0x2E
    else if code == key_arrow_left
    then 0x25
    else if code == key_arrow_up
    then 0x26
    else if code == key_arrow_right
    then 0x27
    else if code == key_arrow_down
    then 0x28
    else if code == key_home
    then 0x24
    else if code == key_end
    then 0x23
    else if code == key_pg_up
    then 0x21
    else if code == key_pg_dn
    then 0x22
    else if code == key_mute
    then 0xAD
    else if code == key_vol_down
    then 0xAE
    else if code == key_vol_up
    then 0xAF
    else if code == key_next
    then 0xB0
    else if code == key_prev
    then 0xB1
    else if code == key_play_pause
    then 0xB3
    else 0

unfoldable pub vk_for : ℤ → ℕ
vk_for (negsuc n) = 0
vk_for (pos code) =
    if (leb 65 code && leb code 90) || (leb 48 code && leb code 57)
    then code
    else if leb key_f1 code && leb code (key_f1 + 11)
    then 0x70 + (code - key_f1)
    else vk_special code

unfoldable pub key_inputs : ℕ → ℤ → Bool → List Input
key_inputs vk mods down =
    if down
    then mod_keys mods false ++ key_vk vk false ∷ []
    else key_vk vk true ∷ mod_keys mods true

unfoldable pub key : ℤ → ℤ → Bool → WinInjector → WinInjector
key code mods down w =
    let vk = vk_for code in if vk == 0 then w else send_many (key_inputs vk mods down) w

-- uint16(x) drops the high bits.
unfoldable pub utf16_units : ℕ → List ℕ
utf16_units r =
    if ltb 0xFFFF r
    then (0xD800 + (r - 0x10000) / 2 ^ 10) % 2 ^ 16
      ∷ (0xDC00 + (r - 0x10000) % 2 ^ 10) % 2 ^ 16
      ∷ []
    else r % 2 ^ 16 ∷ []

-- Down and up of each unit.
abbrev pub unit_inputs : List ℕ → List Input
unit_inputs [] = []
unit_inputs (u ∷ us) =
    keyboard (record { vk = 0; scan = u; flags = key_unicode })
    ∷ keyboard (record { vk = 0; scan = u; flags = key_unicode + key_up })
    ∷ unit_inputs us

unfoldable pub text_inputs : String → List Input
text_inputs String.[] = []
text_inputs (String.◌∷◌ c s) = unit_inputs (utf16_units (code_point c)) ++ text_inputs s

unfoldable pub text : String → WinInjector → WinInjector
text s w = send_many (text_inputs s) w

abbrev pub win_injector : User32 → Injector WinInjector
win_injector u = record {
  move_rel = move_rel u;
  move_abs = move_abs;
  button = button u;
  scroll = scroll;
  text = text;
  key = key;
  close = λ w. w;
}
