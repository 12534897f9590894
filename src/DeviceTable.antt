-- ===== src/DeviceTable.antt =====
-- server/ui_windows.go: the rows of the table of connected devices. `sync` draws the table anew.
pub mod Duration
mod Examples
use Prim.Native.Char.{Char}
use Prim.Native.String.{◌++◌ as append}
use remote_mouse.Common.{
  ℕ, suc, ◌+◌, ◌-◌, ◌/◌, ◌%◌, String, Bool, true, false, Option, none, some, List, [], ◌∷◌, ◌++◌,
  if◌then◌else◌, str_eq, ltb, length, get_elem?, ◌==◌,
}
use remote_mouse.Common.Int.{ℤ, pos, negsuc, pos_part}
use remote_mouse.Common.Texts.{chars, text}
use remote_mouse.Decimal.{itoa}
use remote_mouse.Clients.{Client, ClientRegistry, snapshot}

-- The items of the table, and how often its rows were published anew.
pub record DeviceModel : Type 0 where
  pub reg : ClientRegistry
  pub items : List Client
  pub resets : ℕ

unfoldable pub row_count : DeviceModel → ℕ
row_count m = length m.items

-- %02d of a number that is not negative.
unfoldable pub two_digits : ℕ → List Char
two_digits n = if ltb n 10 then "0" ∷ itoa (pos n) else itoa (pos n)

-- int(d.Seconds()) of nanoseconds, cut towards zero, or zero if that is negative.
unfoldable pub whole_seconds : ℤ → ℕ
whole_seconds (pos n) = n / 1000000000
whole_seconds (negsuc n) = 0

unfoldable pub fmt_dur : ℤ → List Char
unfolding whole_seconds two_digits
fmt_dur d =
    let s = whole_seconds d in
    two_digits (s / 3600) ++ ":" ∷ two_digits (s % 3600 / 60) ++ ":" ∷ two_digits (s % 60)

-- The cell of a device; `since` is the time since it connected.
unfoldable pub device_cell : Client → ℤ → ℕ → String
unfolding fmt_dur
device_cell c since col =
    if col == 0
    then (if str_eq c.name "" then "(未命名)" else c.name)
    else if col == 1
    then c.addr
    else if col == 2
    then text (fmt_dur since)
    else "在线"

abbrev cell_of : Option Client → (Client → ℤ) → ℕ → Option String
cell_of none since col = none
cell_of (some c) since col = some (device_cell c (since c) col)

-- A row that does not exist is a panic.
unfoldable pub value : DeviceModel → (Client → ℤ) → ℕ → ℕ → Option String
value m since row col = cell_of (get_elem? m.items row) since col

unfoldable pub reload : DeviceModel → DeviceModel
reload m = record m { items = snapshot m.reg; resets = suc m.resets }

-- "已连接设备 (%d)".
unfoldable pub count_text : List Client → String
count_text items = append "已连接设备 (" (append (text (itoa (pos (length items)))) ")")

-- The table's ticker draws it anew while there are devices.
unfoldable pub tick_table : DeviceModel → DeviceModel
tick_table m = if ltb 0 (length m.items) then record m { resets = suc m.resets } else m
