-- ===== src/Tray.antt =====
-- server/ui_windows.go: the window and tray of a process that serves and injects by itself. walk, the
-- toolkit, is left out but for what the code sets; each handler is one step on the GUI thread.
mod Installing
mod Examples
use Prim.Native.Char.{Char}
use Prim.Native.String.{◌++◌ as append}
use remote_mouse.Common.{
  ℕ, suc, String, Bool, true, false, not, Option, none, some, List, [], ◌∷◌, if◌then◌else◌, str_eq,
}
use remote_mouse.Common.Int.{ℤ}
use remote_mouse.Common.Texts.{chars, text}
use remote_mouse.Decimal.{itoa}
use remote_mouse.Clients.{ClientRegistry}
use remote_mouse.DeviceTable.{DeviceModel, reload, count_text, tick_table}
use remote_mouse.Autostart.{RunKey, autostart_on, set_autostart, set_autostart_named}
use remote_mouse.NetInfo.{HostIps}

abbrev pub or_none_found : String → String
or_none_found primary = if str_eq primary "" then "未检测到局域网 IP" else primary

-- strings.Join(ips.Secondary, "   ")
abbrev pub join_spaced : List String → String
join_spaced [] = ""
join_spaced (s ∷ []) = s
join_spaced (s ∷ t ∷ rest) = append s (append "   " (join_spaced (t ∷ rest)))

-- `launched` holds the arguments of the elevated children, the last one first; `clipboard` what was
-- copied last.
pub record TrayUi : Type 0 where
  pub pass : List Char
  pub port : ℤ
  pub primary : String
  pub secondary : String
  pub dev_count : String
  pub model : DeviceModel
  pub expand_enabled : Bool
  pub sec_visible : Bool
  pub window_visible : Bool
  pub auto_checked : Bool
  pub clipboard : Option (List Char)
  pub run_key : RunKey
  pub launched : List (List (List Char))

abbrev refreshed : TrayUi → TrayUi
refreshed u = let m = reload u.model in record u { model = m; dev_count = count_text m.items }

-- The window once it is built, with its first refresh.
unfoldable pub run_ui : List Char → ℤ → String → List String → DeviceModel → RunKey → TrayUi
unfolding reload autostart_on count_text
run_ui pass port primary secondary model run_key =
    let sec = join_spaced secondary in
    refreshed record {
      pass = pass;
      port = port;
      primary = or_none_found primary;
      secondary = sec;
      dev_count = "已连接设备 (0)";
      model = model;
      expand_enabled = not (str_eq sec "");
      sec_visible = false;
      window_visible = true;
      auto_checked = autostart_on run_key;
      clipboard = none;
      run_key = run_key;
      launched = [];
    }

-- The callback of the registry, and the ticker.
unfoldable pub refresh : ClientRegistry → TrayUi → TrayUi
unfolding reload count_text
refresh reg u = refreshed (record u { model = record u.model { reg = reg } })

unfoldable pub second_passed : TrayUi → TrayUi
unfolding tick_table
second_passed u = record u { model = tick_table u.model }

-- The menu entry "open at login".
unfoldable pub auto_triggered : List Char → TrayUi → TrayUi
unfolding set_autostart
auto_triggered exe u =
    let on = not u.auto_checked in
    record u { run_key = set_autostart exe on u.pass u.port u.run_key; auto_checked = on }

unfoldable pub install_triggered : TrayUi → TrayUi
install_triggered u =
    let args =
      chars "-install-service" ∷ chars "-pass" ∷ u.pass ∷ chars "-port" ∷ itoa u.port ∷ [] in
    record u { launched = args ∷ u.launched }

unfoldable pub uninstall_triggered : TrayUi → TrayUi
uninstall_triggered u = record u { launched = (chars "-uninstall-service" ∷ []) ∷ u.launched }

-- The buttons that copy, the one that shows the other addresses, the tray icon and the window's close
-- button.
-- A copy that fails is logged, and leaves the clipboard.
unfoldable pub copy_clip : Bool → List Char → TrayUi → TrayUi
copy_clip ok s u = if ok then record u { clipboard = some s } else u

unfoldable pub copy_port : Bool → TrayUi → TrayUi
unfolding copy_clip
copy_port ok u = copy_clip ok (itoa u.port) u

unfoldable pub copy_pass : Bool → TrayUi → TrayUi
unfolding copy_clip
copy_pass ok u = copy_clip ok u.pass u

unfoldable pub expand_clicked : TrayUi → TrayUi
expand_clicked u = if u.expand_enabled then record u { sec_visible = not u.sec_visible } else u

unfoldable pub icon_clicked : Bool → TrayUi → TrayUi
icon_clicked left u = if left then record u { window_visible = not u.window_visible } else u

unfoldable pub closing : TrayUi → TrayUi
closing u = record u { window_visible = false }
