-- ===== src/WinInjector/Examples.antt =====
-- Tests and instances for server/injector_windows.go.
use remote_mouse.Common.{
  ℕ, suc, ◌+◌, ◌==◌, ◌<◌, ◌≤◌, ◌^◌, String, Bool, true, false, Option, none, some, List, [], ◌∷◌,
  ◌++◌, ◌≡◌, ◌≢◌, refl, arith, if◌then◌else◌, All,
}
use remote_mouse.Common.Int.{ℤ, pos, negsuc, ◌+ℤ◌, int32, IsInt32, pos_part, neg_part, sub_ℕ}
use remote_mouse.Proto.{zero_in}
use remote_mouse.WinInjector.{
  Input, mouse, WinInjector, User32, new_secure_injector, move_abs, button, abs_move, track,
  absolute_input, button_flag, virtual_screen, norm_axis, quot, clamp_i32, max_i32,
}
use remote_mouse.WinInjector.Keyboard.{key, text, vk_for}
use remote_mouse.WinInjector.Sent.{AllNormal, inject_all, inject_all-AllNormal}
use remote_mouse.WinInjector.Typing.{flat, receive, code_points, text_arrives}
use remote_mouse.WinInjector.Chords.{held, chord, key_holds_chord}
use remote_mouse.WinInjector.Tracking.{OnScreen, Ends, abs_move_follows, button_ignores_move_abs}

-- Two monitors side by side, the primary one on the right.
abbrev metrics : ℕ → ℕ
metrics i =
    if i == 0
    then 1920
    else if i == 1
    then 1080
    else if i == 76
    then 4294965376
    else if i == 77
    then 0
    else if i == 78
    then 3840
    else if i == 79
    then 1080
    else 0

abbrev desk : User32
desk = record { metric = metrics; cursor_pos = ((pos 10, pos 20), true) }

abbrev tracking : WinInjector
tracking = record new_secure_injector { seeded = true; x = pos 100; y = pos 100 }

-- The corners, as in the tests of the repository.
norm-corner : norm_axis (negsuc 0) (negsuc 1919) (pos 1920) ≡ pos 65535
unfolding norm_axis quot clamp_i32 max_i32 int32 ◌+ℤ◌ remote_mouse.Common.Int.◌-ℤ◌
    remote_mouse.Common.Int.◌*ℤ◌
norm-corner = refl

text_arrives_example :
    (ins : List Input) × (flat (text "h😀" tracking).sent ≡ flat tracking.sent ++ ins)
    × (receive none ins ≡ code_points "h😀")
text_arrives_example = text_arrives "h😀" tracking

-- Control and C.
key_holds_chord_example :
    held 17 (flat (key (pos 67) (pos 1) true tracking).sent) false
    ≡ (if chord (pos 67) (pos 1) 17 then true else held 17 (flat tracking.sent) false)
key_holds_chord_example = key_holds_chord (pos 67) (pos 1) true tracking 17

vk-letter : vk_for (pos 67) ≢ 0
unfolding vk_for
vk-letter e = absurd (omega arith)

inject_all-AllNormal_example :
    AllNormal
      (inject_all ((desk, record zero_in { t = "move"; dx = pos 70000 }) ∷ []) new_secure_injector)
inject_all-AllNormal_example =
    inject_all-AllNormal ((desk, record zero_in { t = "move"; dx = pos 70000 }) ∷ [])
      new_secure_injector tt

desk-screen : virtual_screen desk ≡ ((negsuc 1919, pos 0), (pos 3840, pos 1080))
unfolding virtual_screen int32
desk-screen = refl

abs_move_follows_example :
    ((abs_move desk (pos 7) (pos 9) tracking).0.x ≡ pos 100 +ℤ pos 7)
    × ((abs_move desk (pos 7) (pos 9) tracking).0.y ≡ pos 100 +ℤ pos 9)
abs_move_follows_example =
    abs_move_follows desk (pos 7) (pos 9) tracking ends.0 ends.1 refl (omega arith, omega arith)
      (omega arith, omega arith) on
  where
    ends : let ((ox, oy), (cw, ch)) = virtual_screen desk in Ends ox cw × Ends oy ch
    ends = unfold virtual_screen int32 in (omega arith, omega arith)

    on :
        let ((ox, oy), (cw, ch)) = virtual_screen desk in
        OnScreen ox cw (pos 100 +ℤ pos 7) × OnScreen oy ch (pos 100 +ℤ pos 9)
    on =
        unfold virtual_screen int32 ◌+ℤ◌ in ((omega arith, omega arith), (omega arith, omega arith))

button_ignores_move_abs_example :
    (button
      (record desk { cursor_pos = ((pos 5, pos 6), true) })
      "left"
      true
      (move_abs (pos 30000) (pos 40000) tracking)).sent
    ≡ (move_abs (pos 30000) (pos 40000) tracking).sent
      ++ (absolute_input desk (track desk (pos 0) (pos 0) tracking)
          ∷ mouse
              (record { dx = pos 0; dy = pos 0; mouse_data = 0; flags = button_flag "left" true })
          ∷ [])
        ∷ []
button_ignores_move_abs_example =
    button_ignores_move_abs desk ((pos 5, pos 6), true) "left" true (pos 30000) (pos 40000) tracking
      refl refl
