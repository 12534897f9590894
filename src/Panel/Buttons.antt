-- ===== src/Panel/Buttons.antt =====
-- server/ui_panel_windows.go: the handlers of the buttons, the menu entry, the tray icon and the close
-- button.
use Prim.Native.Char.{Char}
use remote_mouse.Common.{
  Bool, true, false, not, ◌&&◌, Option, none, some, List, [], ◌∷◌, if◌then◌else◌, leb,
}
use remote_mouse.Common.Int.{ℤ, pos, negsuc}
use remote_mouse.Common.Texts.{chars, text, is_nil, trim_space}
use remote_mouse.Decimal.{itoa, atoi}
use remote_mouse.Config.{ServerConfig}
use remote_mouse.Autostart.{autostart_on, set_autostart_named, set_autostart}
use remote_mouse.Serving.{Env, apply}
use remote_mouse.ServiceStatus.{Answers, service_installed}
use remote_mouse.Panel.{Panel, Warning, bad_port, empty_password, elevated_self}

-- The fields for port and password; an invalid one is warned about.
unfoldable pub check_port : Option ℤ → Bool
check_port none = false
check_port (some (pos n)) = leb 1 n && leb n 65535
check_port (some (negsuc n)) = false

abbrev pub or_zero : Option ℤ → ℤ
or_zero none = pos 0
or_zero (some z) = z

module _ {ℓ} {S : Type ℓ} where
  abbrev warn : Warning → Panel S → Panel S
  warn w p = record p { warnings = w ∷ p.warnings }

  unfoldable pub read_conn : Panel S → Panel S × Option (ℤ × List Char)
  unfolding check_port
  read_conn p =
      let port = atoi (trim_space p.widgets.port_text) in
      if not (check_port port)
      then (warn bad_port p, none)
      else if is_nil p.widgets.pass_text
      then (warn empty_password p, none)
      else (p, some (or_zero port, p.widgets.pass_text))

  -- The button "save and apply", with the path of the program, whether the service is installed and
  -- the network of the controller.
  abbrev pub save_valid : List Char → Bool → Env → Panel S × Option (ℤ × List Char) → Panel S
  save_valid exe installed e (p, none) = p
  save_valid exe installed e (p, some (port, pass)) =
      let name = trim_space p.widgets.name_text in
      let next : ServerConfig = record { password = text pass; port = port; name = text name } in
      let applied : Panel S = record p { ctrl = apply e next p.ctrl } in
      let args =
        chars "-apply-config"
        ∷ chars "-pass"
        ∷ pass
        ∷ chars "-port"
        ∷ itoa port
        ∷ chars "-name"
        ∷ name
        ∷ [] in
      if installed
      then elevated_self args applied
      else if autostart_on p.run_key
      then record applied { run_key = set_autostart_named exe true pass port name p.run_key }
      else applied

  unfoldable pub save_clicked : List Char → Answers → Env → Panel S → Panel S
  unfolding read_conn service_installed elevated_self autostart_on set_autostart_named
  save_clicked exe a e p = save_valid exe (service_installed a).0 e (read_conn p)

  abbrev pub install_valid : Panel S × Option (ℤ × List Char) → Panel S
  install_valid (p, none) = p
  install_valid (p, some (port, pass)) =
      elevated_self
        (chars "-install-service"
          ∷ chars "-pass"
          ∷ pass
          ∷ chars "-port"
          ∷ itoa port
          ∷ chars "-name"
          ∷ trim_space p.widgets.name_text
          ∷ [])
        p

  unfoldable pub install_clicked : Panel S → Panel S
  unfolding read_conn elevated_self
  install_clicked p = install_valid (read_conn p)

  unfoldable pub start_clicked : Panel S → Panel S
  unfolding elevated_self
  start_clicked p = elevated_self (chars "-start-service" ∷ []) p

  unfoldable pub stop_clicked : Panel S → Panel S
  unfolding elevated_self
  stop_clicked p = elevated_self (chars "-stop-service" ∷ []) p

  unfoldable pub uninstall_clicked : Panel S → Panel S
  unfolding elevated_self
  uninstall_clicked p = elevated_self (chars "-uninstall-service" ∷ []) p

  -- The button that shows and hides the password.
  unfoldable pub show_pass_clicked : Panel S → Panel S
  show_pass_clicked p =
      let show = p.widgets.password_mode in
      record p {
        widgets = record p.widgets {
          password_mode = not show;
          show_text = if show then "隐藏" else "显示";
        };
      }

  -- The menu entry "open at login".
  abbrev pub login_valid : List Char → Panel S × Option (ℤ × List Char) → Panel S
  login_valid exe (p, none) = p
  login_valid exe (p, some (port, pass)) = record p {
    run_key = set_autostart_named exe true pass port (trim_space p.widgets.name_text) p.run_key;
    widgets = record p.widgets { login_checked = true };
  }

  unfoldable pub login_triggered : List Char → Panel S → Panel S
  unfolding read_conn set_autostart set_autostart_named
  login_triggered exe p =
      let turned_off : Panel S = record p {
        run_key = set_autostart exe false [] (pos 0) p.run_key;
        widgets = record p.widgets { login_checked = false };
      } in
      if not p.widgets.login_checked then login_valid exe (read_conn p) else turned_off

  -- A left click on the tray icon, and the window's close button, which only hides it.
  unfoldable pub tray_clicked : Bool → Panel S → Panel S
  tray_clicked left p =
      if left
      then record p { widgets = record p.widgets { window_visible = not p.widgets.window_visible } }
      else p

  unfoldable pub close_clicked : Panel S → Panel S
  close_clicked p = record p { widgets = record p.widgets { window_visible = false } }
