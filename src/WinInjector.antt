-- ===== src/WinInjector.antt =====
-- server/injector_windows.go: the injector of Windows. `sent` keeps the arguments of the calls of
-- SendInput, oldest first; what SendInput does with them, and the log of it, is left out. The
-- metrics and the cursor position that user32 answers are arguments. Flag bits that are joined are
-- disjoint, so `|` is `+`.
pub mod Range
pub mod Pointer
pub mod Sent
pub mod Keyboard
pub mod Typing
pub mod Chords
pub mod Tracking
mod Examples
use Prim.Native.Char.{code as code_point}
use remote_mouse.Common.{
  ℕ, zero, suc, ◌+◌, ◌-◌, ◌*◌, ◌/◌, ◌%◌, ◌^◌, ◌==◌, String, Bool, true, false, not, ◌||◌, ◌&&◌,
  List, [], ◌∷◌, ◌++◌, if◌then◌else◌, leb, ltb, str_eq,
}
use remote_mouse.Common.Int.{ℤ, pos, negsuc, ◌+ℤ◌, ◌-ℤ◌, ◌*ℤ◌, lt_int, eq_int, int32, to_u32, sub_ℕ}
use remote_mouse.Inject.{Injector}
use remote_mouse.Keys.{
  has_bit, mod_ctrl, mod_alt, mod_shift, mod_meta, key_enter, key_back, key_tab, key_esc, key_del,
  key_arrow_up, key_arrow_down, key_arrow_left, key_arrow_right, key_home, key_end, key_pg_up,
  key_pg_dn, key_f1, key_vol_down, key_vol_up, key_mute, key_play_pause, key_next, key_prev,
}

abbrev pub move_rel_f : ℕ
move_rel_f = 0x0001

abbrev pub absolute_f : ℕ
absolute_f = 0x8000

abbrev pub virtual_desk : ℕ
virtual_desk = 0x4000

abbrev pub wheel : ℕ
wheel = 0x0800

abbrev pub hwheel : ℕ
hwheel = 0x1000

abbrev pub key_unicode : ℕ
key_unicode = 0x0004

abbrev pub key_up : ℕ
key_up = 0x0002

abbrev pub key_extended : ℕ
key_extended = 0x0001

abbrev pub wheel_delta : ℕ
wheel_delta = 120

-- `time` and `extra` are always 0.
pub record MouseInput : Type 0 where
  pub dx : ℤ
  pub dy : ℤ
  pub mouse_data : ℕ
  pub flags : ℕ

pub record KeybdInput : Type 0 where
  pub vk : ℕ
  pub scan : ℕ
  pub flags : ℕ

pub data Input : Type 0 where
  mouse : MouseInput → Input
  keyboard : KeybdInput → Input

pub record WinInjector : Type 0 where
  pub absolute : Bool
  pub seeded : Bool
  pub x : ℤ
  pub y : ℤ
  pub sent : List (List Input)

-- What user32 answers: GetSystemMetrics, and GetCursorPos with whether it succeeds.
pub record User32 : Type 0 where
  pub metric : ℕ → ℕ
  pub cursor_pos : (ℤ × ℤ) × Bool

abbrev pub new_injector : WinInjector
new_injector = record { absolute = false; seeded = false; x = pos 0; y = pos 0; sent = [] }

abbrev pub new_secure_injector : WinInjector
new_secure_injector = record new_injector { absolute = true }

abbrev pub send_many : List Input → WinInjector → WinInjector
send_many [] w = w
send_many (i ∷ ins) w = record w { sent = w.sent ++ (i ∷ ins) ∷ [] }

-- 32-bit sums and differences wrap around.
abbrev pub add32 : ℤ → ℤ → ℤ
add32 a b = int32 (a +ℤ b)

abbrev pub sub32 : ℤ → ℤ → ℤ
sub32 a b = int32 (a -ℤ b)

-- Go's division by a positive number, towards 0.
unfoldable pub quot : ℤ → ℕ → ℤ
quot (pos n) k = pos (n / k)
quot (negsuc n) k = sub_ℕ 0 (suc n / k)

unfoldable pub clamp_i32 : ℤ → ℤ → ℤ → ℤ
clamp_i32 v lo hi = if lt_int v lo then lo else if lt_int hi v then hi else v

unfoldable pub max_i32 : ℤ → ℤ → ℤ
max_i32 a b = if lt_int b a then a else b

-- A positive number as the divisor; `max_i32` never returns another.
abbrev pub to_divisor : ℤ → ℕ
to_divisor (pos n) = n
to_divisor (negsuc n) = 1

-- One coordinate of `norm_abs`. The product is taken in 64 bits, which hold it.
unfoldable pub norm_axis : ℤ → ℤ → ℤ → ℤ
norm_axis x ox cw =
    let far = sub32 (add32 ox cw) (pos 1) in
    let offset = sub32 (clamp_i32 x ox far) ox in
    int32 (quot (offset *ℤ 65535) (to_divisor (max_i32 (sub32 cw (pos 1)) (pos 1))))

abbrev pub norm_abs : ℤ → ℤ → ℤ → ℤ → ℤ → ℤ → ℤ × ℤ
norm_abs x y ox oy cw ch = (norm_axis x ox cw, norm_axis y oy ch)

abbrev pub sys_metric : User32 → ℕ → ℤ
sys_metric u i = int32 (pos (u.metric i))

-- A size that is not positive is replaced by the primary monitor's, or else by 1.
abbrev pub size_or : ℤ → ℤ → ℤ
size_or w primary =
    let w' = (if lt_int (pos 0) w then w else primary) in if lt_int (pos 0) w' then w' else pos 1

unfoldable pub virtual_screen : User32 → (ℤ × ℤ) × (ℤ × ℤ)
virtual_screen u = (
  (sys_metric u 76, sys_metric u 77),
  (size_or (sys_metric u 78) (sys_metric u 0), size_or (sys_metric u 79) (sys_metric u 1)),
)

abbrev pub screen_size : User32 → ℤ × ℤ
screen_size u = (size_or (sys_metric u 0) (pos 1), size_or (sys_metric u 1) (pos 1))

-- The tracked position on first use: the cursor's, or the middle of the screen.
unfoldable pub seed : User32 → WinInjector → WinInjector
seed u w =
    let ((ox, oy), (cw, ch)) = virtual_screen u in
    let ((px, py), ok) = u.cursor_pos in
    if w.seeded
    then w
    else if ok
    then record w { seeded = true; x = px; y = py }
    else record w { seeded = true; x = add32 ox (quot cw 2); y = add32 oy (quot ch 2) }

unfoldable pub track : User32 → ℤ → ℤ → WinInjector → WinInjector
track u dx dy w =
    let ((ox, oy), (cw, ch)) = virtual_screen u in
    record w {
      x = clamp_i32 (add32 w.x (int32 dx)) ox (sub32 (add32 ox cw) (pos 1));
      y = clamp_i32 (add32 w.y (int32 dy)) oy (sub32 (add32 oy ch) (pos 1));
    }

-- The move to the tracked position.
unfoldable pub absolute_input : User32 → WinInjector → Input
absolute_input u w =
    let ((ox, oy), (cw, ch)) = virtual_screen u in
    let (nx, ny) = norm_abs w.x w.y ox oy cw ch in
    mouse
      (record { dx = nx; dy = ny; mouse_data = 0; flags = move_rel_f + absolute_f + virtual_desk })

unfoldable pub abs_move : User32 → ℤ → ℤ → WinInjector → WinInjector × Input
abs_move u dx dy w = let w' : WinInjector = track u dx dy (seed u w) in (w', absolute_input u w')

unfoldable pub move_rel : User32 → ℤ → ℤ → WinInjector → WinInjector
move_rel u dx dy w =
    let (w', i) = abs_move u dx dy w in
    if w.absolute
    then send_many (i ∷ []) w'
    else send_many
        (mouse (record { dx = int32 dx; dy = int32 dy; mouse_data = 0; flags = move_rel_f }) ∷ []) w

unfoldable pub move_abs : ℤ → ℤ → WinInjector → WinInjector
move_abs nx ny w =
    let x = clamp_i32 (int32 nx) (pos 0) (pos 65535) in
    let y = clamp_i32 (int32 ny) (pos 0) (pos 65535) in
    send_many
      (mouse (record { dx = x; dy = y; mouse_data = 0; flags = move_rel_f + absolute_f }) ∷ []) w

unfoldable pub button_flag : String → Bool → ℕ
button_flag btn down =
    if str_eq btn "right"
    then (if down then 0x0008 else 0x0010)
    else if str_eq btn "middle"
    then (if down then 0x0020 else 0x0040)
    else if down
    then 0x0002
    else 0x0004

unfoldable pub button : User32 → String → Bool → WinInjector → WinInjector
button u btn down w =
    let (w', i) = abs_move u (pos 0) (pos 0) w in
    let b =
      mouse (record { dx = pos 0; dy = pos 0; mouse_data = 0; flags = button_flag btn down }) in
    if w.absolute then send_many (i ∷ b ∷ []) w' else send_many (b ∷ []) w

-- uint32(int32(d) * wheelDelta), whose product wraps around.
abbrev pub wheel_input : ℤ → ℕ → List Input
wheel_input d flags =
    if eq_int d (pos 0)
    then []
    else mouse (record {
      dx = pos 0;
      dy = pos 0;
      mouse_data = to_u32 (int32 (int32 d *ℤ wheel_delta));
      flags = flags;
    })
      ∷ []

unfoldable pub scroll : ℤ → ℤ → WinInjector → WinInjector
scroll dx dy w = send_many (wheel_input dy wheel ++ wheel_input dx hwheel) w
