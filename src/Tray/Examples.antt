-- ===== src/Tray/Examples.antt =====
-- Instances and tests for the window of a process that serves by itself.
use Prim.Native.Char.{Char}
use remote_mouse.Common.{none, some, List, [], ◌∷◌, ◌++◌, ◌≡◌, refl, arith}
use remote_mouse.Common.Int.{pos}
use remote_mouse.Common.Texts.{chars, text, trim_space}
use remote_mouse.Clients.{new_client_registry}
use remote_mouse.Config.{AppConfig}
use remote_mouse.CommandLine.{quote, blank, elevated_arg_line}
use remote_mouse.Flags.{main_config}
use remote_mouse.Run.{Action, run}
use remote_mouse.DeviceTable.{DeviceModel}
use remote_mouse.Tray.{TrayUi, run_ui, install_triggered, auto_triggered}
use remote_mouse.Tray.Installing.{tray_installs_host_name}

abbrev no_devices : DeviceModel
no_devices = record { reg = new_client_registry; items = []; resets = 0 }

desk_ui : TrayUi
desk_ui = run_ui (chars "p q") (pos 27500) "10.0.0.3" [] no_devices (some none)

desk_ui-port : desk_ui.port ≡ pos 27500
unfolding desk_ui run_ui
desk_ui-port = refl

-- The entry at login that was made is taken away again.
on_and_off :
    (auto_triggered (chars "rm.exe") (auto_triggered (chars "rm.exe") desk_ui)).run_key ≡ some none
unfolding auto_triggered desk_ui run_ui
on_and_off = refl

tray_installs_host_name_example :
    (args : List (List Char)) × (c : AppConfig) × ((install_triggered desk_ui).launched
      ≡ args ∷ desk_ui.launched)
    × (main_config
          (chars "desk")
          (quote ∷ chars "C:\\rm.exe" ++ quote ∷ blank ∷ elevated_arg_line args)
        ≡ some c)
    × (run c
        ≡ Action.install_service (record {
          password = text desk_ui.pass;
          port = pos 27500;
          name = text (trim_space (chars "desk"));
        }))
tray_installs_host_name_example =
    tray_installs_host_name desk_ui 27500 (chars "C:\\rm.exe") (chars "desk") desk_ui-port
      (omega arith) (refl, refl)
