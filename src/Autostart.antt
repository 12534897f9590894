-- ===== src/Autostart.antt =====
-- server/autostart_windows.go: the entry that opens the panel at login.
use Prim.Native.Char.{Char}
use remote_mouse.Common.{Bool, true, false, Option, none, some, List, []}
use remote_mouse.Common.Int.{ℤ}
use remote_mouse.CommandLine.{autostart_cmd}

-- The value RemoteMouse under the user's Run key: no key, or a key with or without the value.
abbrev pub RunKey : Type 0
RunKey = Option (Option (List Char))

unfoldable pub autostart_on : RunKey → Bool
autostart_on (some (some cmd)) = true
autostart_on _ = false

-- A missing key is left alone.
unfoldable pub set_autostart_named : List Char → Bool → List Char → ℤ → List Char → RunKey → RunKey
set_autostart_named exe on pass port name none = none
set_autostart_named exe true pass port name (some v) =
    some (some (autostart_cmd exe pass port name))
set_autostart_named exe false pass port name (some v) = some none

unfoldable pub set_autostart : List Char → Bool → List Char → ℤ → RunKey → RunKey
unfolding set_autostart_named
set_autostart exe on pass port root = set_autostart_named exe on pass port [] root
