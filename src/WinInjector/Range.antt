-- ===== src/WinInjector/Range.antt =====
-- server/injector_windows.go: the range of the coordinates that are sent to Windows.
use remote_mouse.Common.{◌+◌, ◌^◌, ◌≤◌, ◌<◌, ◌≡◌, arith, ◌⊎◌}
use remote_mouse.Common.Int.{
  ℤ, pos, negsuc, pos_part, neg_part, ◌+ℤ◌, ◌-ℤ◌, int32, IsInt32, int32-IsInt32, +ℤ_parts, -ℤ_parts,
  parts_apart,
}
use remote_mouse.WinInjector.{clamp_i32, add32, sub32}

-- The value z is w up to a multiple of 2^32, at most once.
abbrev Wraps : ℤ → ℤ → Type 0
Wraps z w =
    (pos_part w + neg_part z ≡ pos_part z + neg_part w)
    ⊎ ((pos_part w + neg_part z ≡ pos_part z + neg_part w + 2 ^ 32)
        ⊎ (pos_part w + neg_part z + 2 ^ 32 ≡ pos_part z + neg_part w))

wraps : (z : ℤ) → pos_part z < 2 ^ 32 → neg_part z ≤ 2 ^ 32 → Wraps z (int32 z)
unfolding int32
wraps (pos n) p q = ground arith
wraps (negsuc n) p q = ground arith

pub +ℤ-Wraps : (a b : ℤ) → IsInt32 a → IsInt32 b → Wraps (a +ℤ b) (add32 a b)
+ℤ-Wraps a b h k = wraps (a +ℤ b) small0 small1
  where
    small0 : pos_part (a +ℤ b) < 2 ^ 32
    small0 = unfold ◌+ℤ◌ in ground arith

    small1 : neg_part (a +ℤ b) ≤ 2 ^ 32
    small1 = unfold ◌+ℤ◌ in ground arith

-ℤ-Wraps : (a b : ℤ) → IsInt32 a → IsInt32 b → Wraps (a -ℤ b) (sub32 a b)
-ℤ-Wraps a b h k = wraps (a -ℤ b) small0 small1
  where
    small0 : pos_part (a -ℤ b) < 2 ^ 32
    small0 = unfold ◌-ℤ◌ in ground arith

    small1 : neg_part (a -ℤ b) ≤ 2 ^ 32
    small1 = unfold ◌-ℤ◌ in ground arith

-- The last pixel of a screen that starts at `o` and has `c` pixels; it may wrap around.
abbrev pub far_end : ℤ → ℤ → ℤ
far_end o c = sub32 (add32 o c) (pos 1)

-- Either the screen ends within the 32-bit numbers, or its far end is a number below its start.
pub far_end-cases :
    (o c : ℤ)
    → IsInt32 o
    → IsInt32 c
    → 1 ≤ pos_part c
    → let f = far_end o c in
      (pos_part f + neg_part o + 1 ≡ pos_part o + neg_part f + pos_part c)
      ⊎ (pos_part f + neg_part o + 1 + 2 ^ 32 ≡ pos_part o + neg_part f + pos_part c)
far_end-cases o c h k p =
    let s = add32 o c in
    let si = int32-IsInt32 (o +ℤ c) in
    let f = sub32 s (pos 1) in
    let fi = int32-IsInt32 (s -ℤ pos 1) in
    ground (
      arith,
      +ℤ-Wraps o c h k,
      +ℤ_parts o c,
      -ℤ-Wraps s (pos 1) si (ground arith),
      -ℤ_parts s (pos 1),
      parts_apart c p,
      parts_apart o,
      parts_apart s,
      parts_apart f,
    )

-- The position that is clamped to the screen, from its start.
abbrev pub clamped_offset : ℤ → ℤ → ℤ → ℤ
clamped_offset x o c = sub32 (clamp_i32 x o (far_end o c)) o

clamp-IsInt32 : (v lo hi : ℤ) → IsInt32 v → IsInt32 lo → IsInt32 hi → IsInt32 (clamp_i32 v lo hi)
unfolding clamp_i32
clamp-IsInt32 v lo hi h k l = ground arith

clamp-cases :
    (v lo hi : ℤ)
    → let r = clamp_i32 v lo hi in
      (r ≡ lo)
      ⊎ ((r ≡ hi)
          ⊎ ((r ≡ v)
              × (pos_part lo + neg_part v ≤ pos_part v + neg_part lo)
              × (pos_part v + neg_part hi ≤ pos_part hi + neg_part v)))
unfolding clamp_i32
clamp-cases v lo hi = ground arith

pub clamped_offset-lt :
    (x o c : ℤ)
    → IsInt32 x
    → IsInt32 o
    → IsInt32 c
    → 1 ≤ pos_part c
    → (neg_part (clamped_offset x o c) ≡ 0) × (pos_part (clamped_offset x o c) < pos_part c)
clamped_offset-lt x o c hx ho hc p =
    let f = far_end o c in
    let r = clamp_i32 x o f in
    let d = sub32 r o in
    let fi = int32-IsInt32 (add32 o c -ℤ pos 1) in
    let ri = clamp-IsInt32 x o f hx ho fi in
    let di = int32-IsInt32 (r -ℤ o) in
    ground (
      arith,
      clamp-cases x o f,
      far_end-cases o c ho hc p,
      -ℤ-Wraps r o ri ho,
      -ℤ_parts r o,
      parts_apart c p,
      parts_apart d,
      parts_apart f,
      parts_apart o,
      parts_apart r,
      parts_apart (r -ℤ o),
    )
