-- ===== src/WinInjector/Sent.antt =====
-- server/injector_windows.go: every absolute move that is sent is in range.
use remote_mouse.Common.{
  ℕ, ◌+◌, ◌≤◌, String, Bool, true, false, List, [], ◌∷◌, ◌++◌, ◌≡◌, arith, if◌then◌else◌, All,
  All-append, ◌==◌, Bool-cases, inl, inr,
}
use remote_mouse.Common.Int.{ℤ, pos, int32, eq_int}
use remote_mouse.Proto.{In}
use remote_mouse.Inject.{Kind, move, moveabs, click, other, kind_of, is_down, dispatch, apply_event}
use remote_mouse.Keys.{has_bit, mod_ctrl, mod_shift, mod_alt, mod_meta}
use remote_mouse.WinInjector.{
  Input, mouse, WinInjector, User32, clamp_i32, seed, track, abs_move, send_many, scroll,
  wheel_input, wheel, hwheel, move_rel, move_abs, button, absolute_f, move_rel_f, button_flag,
}
use remote_mouse.WinInjector.Keyboard.{
  win_injector, key, text, key_inputs, text_inputs, vk_for, unit_inputs, mod_keys, key_vk, mod_key,
}
use remote_mouse.WinInjector.Pointer.{OnAxis, IsNormal, absolute_input-IsNormal}

abbrev pub AllNormal : WinInjector → Type 0
AllNormal w = All (All IsNormal) w.sent

send_many-AllNormal :
    (ins : List Input) (w : WinInjector)
    → All IsNormal ins
    → AllNormal w
    → AllNormal (send_many ins w)
send_many-AllNormal [] w h k = k
send_many-AllNormal (i ∷ ins) w h k = All-append (All IsNormal) w.sent ((i ∷ ins) ∷ []) k (h, tt)

sent-track : (u : User32) (dx dy : ℤ) (w : WinInjector) → (abs_move u dx dy w).0.sent ≡ w.sent
unfolding abs_move track seed
sent-track u dx dy w = ground arith

abs_move-IsNormal : (u : User32) (dx dy : ℤ) (w : WinInjector) → IsNormal (abs_move u dx dy w).1
unfolding abs_move
abs_move-IsNormal u dx dy w = absolute_input-IsNormal u dx dy (seed u w)

either-AllNormal :
    (b : Bool) (v w : WinInjector) → AllNormal v → AllNormal w → AllNormal (if b then v else w)
either-AllNormal true v w h k = h
either-AllNormal false v w h k = k

move_rel-AllNormal :
    (u : User32) (dx dy : ℤ) (w : WinInjector) → AllNormal w → AllNormal (move_rel u dx dy w)
unfolding move_rel
move_rel-AllNormal u dx dy w h =
    let (w', i) = abs_move u dx dy w in
    let plain : Input =
      mouse (record { dx = int32 dx; dy = int32 dy; mouse_data = 0; flags = move_rel_f }) in
    either-AllNormal w.absolute (send_many (i ∷ []) w') (send_many (plain ∷ []) w)
      (send_many-AllNormal (i ∷ []) w' (abs_move-IsNormal u dx dy w, tt)
        (rw (sent-track u dx dy w) h))
      (send_many-AllNormal (plain ∷ []) w ((λ k. absurd (omega arith)), tt) h)

button_flag-le : (b : String) (d : Bool) → button_flag b d ≤ 64
unfolding button_flag
button_flag-le b d = ground arith

button-AllNormal :
    (u : User32) (b : String) (d : Bool) (w : WinInjector)
    → AllNormal w
    → AllNormal (button u b d w)
unfolding button
button-AllNormal u b d w h =
    let (w', i) = abs_move u (pos 0) (pos 0) w in
    let click : Input =
      mouse (record { dx = pos 0; dy = pos 0; mouse_data = 0; flags = button_flag b d }) in
    let relative : IsNormal click = λ k. absurd (omega (arith, button_flag-le b d)) in
    either-AllNormal w.absolute (send_many (i ∷ click ∷ []) w') (send_many (click ∷ []) w)
      (send_many-AllNormal (i ∷ click ∷ []) w'
        (abs_move-IsNormal u (pos 0) (pos 0) w, (relative, tt))
        (rw (sent-track u (pos 0) (pos 0) w) h))
      (send_many-AllNormal (click ∷ []) w (relative, tt) h)

clamp-OnAxis : (v : ℤ) → OnAxis (clamp_i32 v (pos 0) (pos 65535))
unfolding clamp_i32
clamp-OnAxis v = ground arith

move_abs-AllNormal : (nx ny : ℤ) (w : WinInjector) → AllNormal w → AllNormal (move_abs nx ny w)
unfolding move_abs
move_abs-AllNormal nx ny w h =
    let i : Input = mouse (record {
      dx = clamp_i32 (int32 nx) (pos 0) (pos 65535);
      dy = clamp_i32 (int32 ny) (pos 0) (pos 65535);
      mouse_data = 0;
      flags = move_rel_f + absolute_f;
    }) in
    send_many-AllNormal (i ∷ []) w ((λ k. (clamp-OnAxis (int32 nx), clamp-OnAxis (int32 ny))), tt) h

wheel-IsNormal : (d : ℤ) (f : ℕ) → f ≤ 0x1000 → All IsNormal (wheel_input d f)
wheel-IsNormal d f small = elim (Bool-cases (eq_int d (pos 0))) [
  | inl e ↦ rw e tt
  | inr e ↦ rw e ((λ k. absurd (omega arith)), tt)
]

scroll-AllNormal : (dx dy : ℤ) (w : WinInjector) → AllNormal w → AllNormal (scroll dx dy w)
unfolding scroll
scroll-AllNormal dx dy w h =
    let ins = wheel_input dy wheel ++ wheel_input dx hwheel in
    send_many-AllNormal ins w
      (All-append IsNormal (wheel_input dy wheel) (wheel_input dx hwheel)
        (wheel-IsNormal dy wheel (omega arith)) (wheel-IsNormal dx hwheel (omega arith)))
      h

-- Inputs that are of the keyboard have no coordinates.
mod_key-IsNormal : (mods : ℤ) (bit vk : ℕ) (up : Bool) → All IsNormal (mod_key mods bit vk up)
unfolding key_vk
mod_key-IsNormal mods bit vk up = elim (Bool-cases (has_bit mods bit)) [
  | inl e ↦ rw e (tt, tt)
  | inr e ↦ rw e tt
]

mod_keys-IsNormal : (mods : ℤ) (up : Bool) → All IsNormal (mod_keys mods up)
unfolding mod_keys
mod_keys-IsNormal mods up =
    All-append IsNormal _ _
      (All-append IsNormal _ _
        (All-append IsNormal _ _ (mod_key-IsNormal mods mod_ctrl 0x11 up)
          (mod_key-IsNormal mods mod_shift 0x10 up))
        (mod_key-IsNormal mods mod_alt 0x12 up))
      (mod_key-IsNormal mods mod_meta 0x5B up)

key-AllNormal :
    (code mods : ℤ) (d : Bool) (w : WinInjector) → AllNormal w → AllNormal (key code mods d w)
unfolding key
key-AllNormal code mods d w h =
    either-AllNormal (vk_for code == 0) w (send_many (key_inputs (vk_for code) mods d) w) h
      (send_many-AllNormal (key_inputs (vk_for code) mods d) w (inputs d) h)
  where
    inputs : (d : Bool) → All IsNormal (key_inputs (vk_for code) mods d)
    inputs true =
        unfold key_inputs key_vk in All-append IsNormal _ _ (mod_keys-IsNormal mods false) (tt, tt)
    inputs false = unfold key_inputs key_vk in (tt, mod_keys-IsNormal mods true)

unit_inputs-IsNormal : (us : List ℕ) → All IsNormal (unit_inputs us)
unit_inputs-IsNormal [] = tt
unit_inputs-IsNormal (u ∷ us) = (tt, (tt, unit_inputs-IsNormal us))

text_inputs-IsNormal : (s : String) → All IsNormal (text_inputs s)
unfolding text_inputs
text_inputs-IsNormal String.[] = tt
text_inputs-IsNormal (String.◌∷◌ c s) =
    All-append IsNormal _ _ (unit_inputs-IsNormal _) (text_inputs-IsNormal s)

dispatch-AllNormal :
    (u : User32) (k : Kind) (m : In) (w : WinInjector)
    → AllNormal w
    → AllNormal (dispatch (win_injector u) k m w)
unfolding dispatch text
dispatch-AllNormal u move m w h = move_rel-AllNormal u m.dx m.dy w h
dispatch-AllNormal u moveabs m w h = move_abs-AllNormal m.x m.y w h
dispatch-AllNormal u Kind.button m w h = button-AllNormal u m.b (is_down m.down) w h
dispatch-AllNormal u click m w h =
    button-AllNormal u m.b false (button u m.b true w) (button-AllNormal u m.b true w h)
dispatch-AllNormal u Kind.scroll m w h = scroll-AllNormal m.dx m.dy w h
dispatch-AllNormal u Kind.text m w h =
    send_many-AllNormal (text_inputs m.s) w (text_inputs-IsNormal m.s) h
dispatch-AllNormal u Kind.key m w h = key-AllNormal m.code m.mods (is_down m.down) w h
dispatch-AllNormal u other m w h = h

-- The events that a Windows injector gets, each with what user32 answers while it is handled.
abbrev pub inject_all : List (User32 × In) → WinInjector → WinInjector
inject_all [] w = w
inject_all ((u, m) ∷ ms) w = inject_all ms (apply_event (win_injector u) m w)

-- Whatever events come, however far they move and whatever screens, monitors and cursor positions
-- Windows reports meanwhile, every absolute move that is sent has both coordinates in 0..65535; if
-- this holds of what was sent before.
pub inject_all-AllNormal :
    (ms : List (User32 × In)) (w : WinInjector) → AllNormal w → AllNormal (inject_all ms w)
unfolding apply_event
inject_all-AllNormal [] w h = h
inject_all-AllNormal ((u, m) ∷ ms) w h =
    inject_all-AllNormal ms (apply_event (win_injector u) m w)
      (dispatch-AllNormal u (kind_of m.t) m w h)
