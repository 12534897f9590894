-- ===== src/WinInjector/Tracking.antt =====
-- server/injector_windows.go: the tracked position on the secure desktop.
use remote_mouse.Common.{
  ℕ, ◌+◌, ◌^◌, ◌≤◌, ◌<◌, String, Bool, true, false, List, [], ◌∷◌, ◌++◌, ◌≡◌, refl, ap, arith,
  if◌then◌else◌,
}
use remote_mouse.Common.Int.{
  ℤ, pos, pos_part, neg_part, ◌+ℤ◌, ◌-ℤ◌, int32, IsInt32, int32_id, int32-IsInt32, parts_apart,
}
use remote_mouse.WinInjector.{
  Input, mouse, WinInjector, User32, clamp_i32, add32, virtual_screen, sys_metric, size_or, seed,
  track, abs_move, absolute_input, send_many, move_abs, button, button_flag,
}
use remote_mouse.WinInjector.Range.{far_end, far_end-cases}

-- The pixels of a screen that starts at `o` and has `c` of them.
abbrev pub OnScreen : ℤ → ℤ → ℤ → Type 0
OnScreen o c z =
    (pos_part o + neg_part z ≤ pos_part z + neg_part o)
    × (pos_part z + neg_part o + 1 ≤ pos_part o + neg_part z + pos_part c)

-- The screen ends within the 32-bit numbers.
abbrev pub Ends : ℤ → ℤ → Type 0
Ends o c = pos_part o + pos_part c < 2 ^ 31 + neg_part o

axis-OnScreen :
    (x d o c : ℤ)
    → IsInt32 o
    → IsInt32 c
    → 1 ≤ pos_part c
    → Ends o c
    → OnScreen o c (clamp_i32 (add32 x d) o (far_end o c))
unfolding clamp_i32
axis-OnScreen x d o c ho hc p fits =
    let f = far_end o c in
    let v = add32 x d in
    let fi = int32-IsInt32 (add32 o c -ℤ pos 1) in
    ground (arith, far_end-cases o c ho hc p, parts_apart c p, parts_apart o, parts_apart f)

axis_follows :
    (x d o c : ℤ)
    → IsInt32 x
    → IsInt32 d
    → IsInt32 o
    → IsInt32 c
    → 1 ≤ pos_part c
    → Ends o c
    → OnScreen o c (x +ℤ d)
    → clamp_i32 (add32 x d) o (far_end o c) ≡ x +ℤ d
unfolding clamp_i32
axis_follows x d o c hx hd ho hc p fits on =
    let f = far_end o c in
    let fi = int32-IsInt32 (add32 o c -ℤ pos 1) in
    let same : add32 x d ≡ x +ℤ d =
      int32_id (x +ℤ d) (ground (arith, on, parts_apart (x +ℤ d), parts_apart o, parts_apart c p))
        (ground (arith, on, parts_apart (x +ℤ d), parts_apart o, parts_apart c p)) in
    rw same (
      ground (
        arith,
        far_end-cases o c ho hc p,
        parts_apart c p,
        parts_apart o,
        parts_apart f,
        parts_apart (x +ℤ d),
      ))

sizes :
    (u : User32) (i j : ℕ)
    → IsInt32 (size_or (sys_metric u i) (sys_metric u j))
      × (1 ≤ pos_part (size_or (sys_metric u i) (sys_metric u j)))
sizes u i j =
    let a = int32-IsInt32 (pos (u.metric i)) in
    let b = int32-IsInt32 (pos (u.metric j)) in ground arith

-- Wherever the pointer was and however far it is moved, a move of the tracked position leaves it on
-- the virtual screen, if this ends within the 32-bit numbers.
pub abs_move_stays-OnScreen :
    (u : User32) (dx dy : ℤ) (w : WinInjector)
    → let ((ox, oy), (cw, ch)) = virtual_screen u in
      Ends ox cw
      → Ends oy ch
      → OnScreen ox cw (abs_move u dx dy w).0.x × OnScreen oy ch (abs_move u dx dy w).0.y
unfolding abs_move track virtual_screen
abs_move_stays-OnScreen u dx dy w ex ey =
    let (wi, wp) = sizes u 78 0 in
    let (hi, hp) = sizes u 79 1 in
    (
      axis-OnScreen (seed u w).x (int32 dx) _ _ (int32-IsInt32 (pos (u.metric 76))) wi wp ex,
      axis-OnScreen (seed u w).y (int32 dy) _ _ (int32-IsInt32 (pos (u.metric 77))) hi hp ey,
    )

-- In absolute mode, a move changes the tracked position by exactly the given distance, if there is
-- a tracked position already, it and the distance are 32-bit numbers, the virtual screen ends
-- within the 32-bit numbers and the move leads to a place on it.
pub abs_move_follows :
    (u : User32) (dx dy : ℤ) (w : WinInjector)
    → let ((ox, oy), (cw, ch)) = virtual_screen u in
      Ends ox cw
      → Ends oy ch
      → w.seeded ≡ true
      → IsInt32 w.x × IsInt32 w.y
      → IsInt32 dx × IsInt32 dy
      → OnScreen ox cw (w.x +ℤ dx) × OnScreen oy ch (w.y +ℤ dy)
      → ((abs_move u dx dy w).0.x ≡ w.x +ℤ dx) × ((abs_move u dx dy w).0.y ≡ w.y +ℤ dy)
unfolding abs_move track virtual_screen seed
abs_move_follows u dx dy w ex ey s (xi, yi) (di, ei) (onx, ony) =
    let (wi, wp) = sizes u 78 0 in
    let (hi, hp) = sizes u 79 1 in
    let kx : int32 dx ≡ dx = int32_id dx di.0 di.1 in
    let ky : int32 dy ≡ dy = int32_id dy ei.0 ei.1 in
    (
      rw (kx, s) (axis_follows w.x dx _ _ xi di (int32-IsInt32 (pos (u.metric 76))) wi wp ex onx),
      rw (ky, s) (axis_follows w.y dy _ _ yi ei (int32-IsInt32 (pos (u.metric 77))) hi hp ey ony),
    )

either-sent :
    (b : Bool) (v w : WinInjector) (l : List (List Input))
    → b ≡ true
    → v.sent ≡ l
    → (if b then v else w).sent ≡ l
either-sent true v w l e h = h
either-sent false v w l e h = cc

if_true {ℓ} : {A : Type ℓ} (b : Bool) (x y : A) → b ≡ true → (if b then x else y) ≡ x
if_true true x y e = refl
if_true false x y e = cc

seed-seeded : (u : User32) (w : WinInjector) → w.seeded ≡ true → seed u w ≡ w
unfolding seed
seed-seeded u w s = if_true w.seeded w _ s

-- In absolute mode, a click does not take up an absolute move that came before it: it first moves
-- the pointer to the position that was tracked before the absolute move, wherever the cursor is now,
-- and presses the button there; if there is a tracked position.
pub button_ignores_move_abs :
    (u : User32) (cursor : (ℤ × ℤ) × Bool) (btn : String) (down : Bool) (nx ny : ℤ)
    (w : WinInjector)
    → w.absolute ≡ true
    → w.seeded ≡ true
    → (button (record u { cursor_pos = cursor }) btn down (move_abs nx ny w)).sent
      ≡ (move_abs nx ny w).sent
        ++ (absolute_input u (track u (pos 0) (pos 0) w)
            ∷ mouse
                (record { dx = pos 0; dy = pos 0; mouse_data = 0; flags = button_flag btn down })
            ∷ [])
          ∷ []
unfolding button move_abs abs_move track absolute_input virtual_screen
button_ignores_move_abs u cursor btn down nx ny w a s =
    let v : WinInjector = move_abs nx ny w in
    let u' : User32 = record u { cursor_pos = cursor } in
    let same : seed u' v ≡ v = seed-seeded u' v s in
    let (w', i) = abs_move u' (pos 0) (pos 0) v in
    either-sent w.absolute
      (send_many
        (i
          ∷ mouse (record { dx = pos 0; dy = pos 0; mouse_data = 0; flags = button_flag btn down })
          ∷ [])
        w')
      _ _ a
      (ap
        (λ (z : WinInjector).
          (send_many
            (absolute_input u' (track u' (pos 0) (pos 0) z)
              ∷ mouse
                  (record { dx = pos 0; dy = pos 0; mouse_data = 0; flags = button_flag btn down })
              ∷ [])
            z).sent)
        same)
