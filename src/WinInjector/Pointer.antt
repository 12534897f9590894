-- ===== src/WinInjector/Pointer.antt =====
-- server/injector_windows.go: where the absolute moves go.
use native.Mathlib.Nat.{div-le_of_le-mul}
use remote_mouse.Common.{ℕ, ◌-◌, ◌*◌, ◌/◌, ◌≤◌, ◌≡◌, refl, arith, if◌then◌else◌, ltb}
use remote_mouse.Common.Int.{
  ℤ, pos, negsuc, pos_part, neg_part, ◌+ℤ◌, ◌-ℤ◌, ◌*ℤ◌, int32, IsInt32, int32_id, int32-IsInt32,
}
use remote_mouse.WinInjector.{
  Input, mouse, WinInjector, User32, clamp_i32, max_i32, norm_axis, quot, sub32, add32, to_divisor,
  size_or, sys_metric, virtual_screen, track, absolute_input, absolute_f,
}
use remote_mouse.WinInjector.Range.{clamped_offset, clamped_offset-lt}

-- A screen of `n` pixels has n - 1 steps, and at least one is counted.
abbrev pub steps : ℕ → ℕ
steps n = if ltb 1 (n - 1) then n - 1 else 1

nonneg : (z : ℤ) → neg_part z ≡ 0 → z ≡ pos (pos_part z)
nonneg (pos n) h = refl
nonneg (negsuc n) h = absurd (omega arith)

steps-divisor :
    (c : ℤ)
    → IsInt32 c
    → 1 ≤ pos_part c
    → to_divisor (max_i32 (sub32 c (pos 1)) (pos 1)) ≡ steps (pos_part c)
unfolding max_i32
steps-divisor (negsuc n) h p = absurd (omega arith)
steps-divisor (pos n) h p =
    let e : sub32 (pos n) (pos 1) ≡ pos (n - 1) = unfold ◌-ℤ◌ int32 in ground arith in
    rw e (ground arith)

-- The coordinate that norm_abs computes: the offset of the clamped position, scaled to 0..65535.
pub norm_axis_value :
    (x o c : ℤ)
    → IsInt32 x
    → IsInt32 o
    → IsInt32 c
    → 1 ≤ pos_part c
    → let q = pos_part (clamped_offset x o c) * 65535 / steps (pos_part c) in
      (norm_axis x o c ≡ pos q) × (q ≤ 65535)
unfolding norm_axis
norm_axis_value x o c hx ho hc p =
    let k = pos_part (clamped_offset x o c) in
    let q = k * 65535 / steps (pos_part c) in
    let (d0, d1) = clamped_offset-lt x o c hx ho hc p in
    let bound : q ≤ 65535 = div-le_of_le-mul (steps (pos_part c)) (ground arith) in
    let product : clamped_offset x o c *ℤ 65535 ≡ pos (k * 65535) =
      rw (nonneg (clamped_offset x o c) d0) (unfold ◌*ℤ◌ in ground arith) in
    (
      rw (product, steps-divisor c hc p)
          (unfold quot in int32_id (pos q) (omega arith) (omega arith)),
      bound,
    )

size_or-positive :
    (w p : ℤ) → IsInt32 w → IsInt32 p → IsInt32 (size_or w p) × (1 ≤ pos_part (size_or w p))
size_or-positive w p h k = ground arith

abbrev pub OnAxis : ℤ → Type 0
OnAxis z = (neg_part z ≡ 0) × (pos_part z ≤ 65535)

norm_axis-OnAxis :
    (x o c : ℤ) → IsInt32 x → IsInt32 o → IsInt32 c → 1 ≤ pos_part c → OnAxis (norm_axis x o c)
norm_axis-OnAxis x o c hx ho hc p = let (e, b) = norm_axis_value x o c hx ho hc p in rw e (refl, b)

-- A mouse input that is absolute has both coordinates in 0..65535.
abbrev pub IsNormal : Input → Type 0
IsNormal (mouse m) = absolute_f ≤ m.flags → OnAxis m.dx × OnAxis m.dy
IsNormal (Input.keyboard k) = Unit

clamped-IsInt32 :
    (x d o c : ℤ)
    → IsInt32 o
    → IsInt32 (clamp_i32 (add32 x (int32 d)) o (sub32 (add32 o c) (pos 1)))
unfolding clamp_i32
clamped-IsInt32 x d o c h =
    let k0 = int32-IsInt32 (x +ℤ int32 d) in
    let k1 = int32-IsInt32 (add32 o c -ℤ pos 1) in ground arith

sys_metric-IsInt32 : (u : User32) (i : ℕ) → IsInt32 (sys_metric u i)
sys_metric-IsInt32 u i = int32-IsInt32 (pos (u.metric i))

pub absolute_input-IsNormal :
    (u : User32) (dx dy : ℤ) (w : WinInjector) → IsNormal (absolute_input u (track u dx dy w))
unfolding absolute_input track virtual_screen
absolute_input-IsNormal u dx dy w h =
    let (wi, wp) =
      size_or-positive (sys_metric u 78) (sys_metric u 0) (sys_metric-IsInt32 u 78)
        (sys_metric-IsInt32 u 0) in
    let (hi, hp) =
      size_or-positive (sys_metric u 79) (sys_metric u 1) (sys_metric-IsInt32 u 79)
        (sys_metric-IsInt32 u 1) in
    let ox = sys_metric-IsInt32 u 76 in
    let oy = sys_metric-IsInt32 u 77 in
    (
      norm_axis-OnAxis _ _ _ (clamped-IsInt32 w.x dx _ _ ox) ox wi wp,
      norm_axis-OnAxis _ _ _ (clamped-IsInt32 w.y dy _ _ oy) oy hi hp,
    )
