-- ===== src/DeviceTable/Examples.antt =====
-- Instances and tests for the table of devices.
use remote_mouse.Common.{◌≡◌, refl}
use remote_mouse.Common.Int.{ℤ, pos, negsuc}
use remote_mouse.Common.Texts.{text}
use remote_mouse.Decimal.{itoa, digits, digit_char}
use remote_mouse.DeviceTable.{fmt_dur, device_cell}

-- Two hours, three minutes and four seconds, and half a second.
abbrev afternoon : ℤ
afternoon = pos 7384500000000

shown : text (fmt_dur afternoon) ≡ "02:03:04"
unfolding fmt_dur itoa digits digit_char
shown = refl

clock_set_back : text (fmt_dur (negsuc 5000000000)) ≡ "00:00:00"
unfolding fmt_dur itoa digits digit_char
clock_set_back = refl

unnamed :
    device_cell (record { name = ""; addr = "10.0.0.7"; since = 5; seq = 1 }) afternoon 0 ≡ "(未命名)"
unfolding device_cell
unnamed = refl
