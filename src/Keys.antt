-- ===== src/Keys.antt =====
-- server/keys.go: the key codes and modifier bits that every client and every platform injector
-- uses. A modifier is tested with a bitwise and on Go's signed int.
use remote_mouse.Common.{ℕ, ◌/◌, ◌%◌, Bool, ◌==◌}
use remote_mouse.Common.Int.{ℤ, pos, negsuc}

abbrev pub mod_ctrl : ℕ
mod_ctrl = 1

abbrev pub mod_alt : ℕ
mod_alt = 2

abbrev pub mod_shift : ℕ
mod_shift = 4

abbrev pub mod_meta : ℕ
mod_meta = 8

abbrev pub key_enter : ℕ
key_enter = 1

abbrev pub key_back : ℕ
key_back = 2

abbrev pub key_tab : ℕ
key_tab = 3

abbrev pub key_esc : ℕ
key_esc = 4

abbrev pub key_del : ℕ
key_del = 5

abbrev pub key_arrow_up : ℕ
key_arrow_up = 10

abbrev pub key_arrow_down : ℕ
key_arrow_down = 11

abbrev pub key_arrow_left : ℕ
key_arrow_left = 12

abbrev pub key_arrow_right : ℕ
key_arrow_right = 13

abbrev pub key_home : ℕ
key_home = 20

abbrev pub key_end : ℕ
key_end = 21

abbrev pub key_pg_up : ℕ
key_pg_up = 22

abbrev pub key_pg_dn : ℕ
key_pg_dn = 23

abbrev pub key_f1 : ℕ
key_f1 = 30

abbrev pub key_vol_down : ℕ
key_vol_down = 200

abbrev pub key_vol_up : ℕ
key_vol_up = 201

abbrev pub key_mute : ℕ
key_mute = 202

abbrev pub key_play_pause : ℕ
key_play_pause = 203

abbrev pub key_next : ℕ
key_next = 204

abbrev pub key_prev : ℕ
key_prev = 205

-- x & bit != 0, for a bit of the two's complement of x.
unfoldable pub has_bit : ℤ → ℕ → Bool
has_bit (pos n) bit = (n / bit) % 2 == 1
has_bit (negsuc n) bit = (n / bit) % 2 == 0
