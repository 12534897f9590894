-- ===== src/Panel/Examples.antt =====
-- Instances and tests for the control panel.
use Prim.Native.Char.{Char}
use remote_mouse.Common.{
  get_elem?, ℕ, ◌<◌, Bool, true, false, none, some, List, [], ◌∷◌, ◌++◌, map, ◌≡◌, ◌↔◌, ◌⊎◌, inl,
  refl, arith, if◌then◌else◌, str_eq, All,
}
use remote_mouse.Common.Int.{ℤ, pos, negsuc}
use remote_mouse.Common.Texts.{chars, text, is_nil, trim_space}
use remote_mouse.Clients.{ClientRegistry, insert, register, new_client_registry, snapshot}
use remote_mouse.CommandLine.{quote, blank, elevated_arg_line}
use remote_mouse.Config.{AppConfig, ServerConfig, WriteEnv, mode, write_config}
use remote_mouse.Decimal.{atoi, parse_decimal, parse_digits, digit_value}
use remote_mouse.DeviceTable.{count_text}
use remote_mouse.Flags.{main_config, flag_defaults}
use remote_mouse.Run.{run, set_start_type, apply_config}
use remote_mouse.Service.{Manager, apply_config_elevated}
use remote_mouse.ServiceStatus.{
  Answers, query, answered, service_installed, state_running, state_stopped, with_stored,
}
use remote_mouse.Serving.{Env, Controller, new_serving_controller, apply}
use remote_mouse.StartType.{start_type_by_index, start_type_label}
use remote_mouse.Status.{TimeText, serve_status, query_status_pipe}
use remote_mouse.Status.Codec.{sent_client, HasText}
use remote_mouse.Panel.{Panel, Widgets, Warning, apply_panel_state, choose_start_type}
use remote_mouse.Panel.Buttons.{save_clicked, install_clicked}
use remote_mouse.Panel.Ticking.{Observed, tick}
use remote_mouse.Panel.Refresh.{
  row_texts, Failed, HasStartType, refresh_launches_nothing, buttons_follow_service,
  chosen_start_type_arrives,
}
use remote_mouse.Panel.Fields.{HasFields}
use remote_mouse.Panel.Saving.{
  settings, saved_settings_reach_service, saved_settings_reach_login, invalid_fields_change_nothing,
}
use remote_mouse.Panel.Devices.{panel_shows_service_devices}

abbrev home : ServerConfig
home = record { password = "1234"; port = pos 27500; name = "PC" }

abbrev free_ports : Env
free_ports = record { can_listen = λ p. true; can_announce = true }

abbrev shown : Widgets
shown = record {
  primary_label = "10.0.0.3";
  sec_label = "";
  expand_enabled = false;
  status_label = "查询中…";
  combo_index = negsuc 0;
  combo_enabled = true;
  install_enabled = true;
  start_enabled = true;
  stop_enabled = true;
  uninstall_enabled = true;
  dev_count = "已连接设备 (0)";
  items = [];
  port_text = chars " 8080 ";
  pass_text = chars "p q";
  name_text = chars " Living Room ";
  password_mode = true;
  show_text = "显示";
  sec_visible = false;
  window_visible = true;
  login_checked = true;
}

abbrev controller : Controller (Unit {0})
controller = new_serving_controller home none

abbrev panel : Panel (Unit {0})
panel = record {
  widgets = shown;
  apply_guard = false;
  launched = [];
  warnings = [];
  ctrl = controller;
  run_key = some (some (chars "rm.exe"));
  clipboard = none;
}

abbrev always : ℤ → ℤ → Bool
always old new = true

abbrev is_there_with : ℕ → Answers
is_there_with n = record { manager_opens = true; service_opens = true; answer = some n }

abbrev not_there : Answers
not_there = record { manager_opens = true; service_opens = false; answer = none }

-- The service is installed for a manual start, and stopped.
abbrev at_rest : Observed
at_rest = record {
  running = is_there_with 1;
  state = is_there_with 1;
  start_type = is_there_with 3;
  piped = none;
}

refresh_launches_nothing_example :
    let q = apply_panel_state always "运行中" 2 true [] panel in
    (q.launched ≡ [])
    × (q.apply_guard ≡ false)
    × (q.ctrl ≡ controller)
    × (q.run_key ≡ some (some (chars "rm.exe")))
    × (q.widgets.port_text ≡ chars " 8080 ")
    × (q.widgets.pass_text ≡ chars "p q")
    × (q.widgets.name_text ≡ chars " Living Room ")
refresh_launches_nothing_example = refresh_launches_nothing always "运行中" 2 true [] panel

buttons_follow_service_example :
    let w = (tick tt free_ports always at_rest panel).widgets in
    let found = (query at_rest.start_type).0 in
    let state = (query at_rest.state).0 in
    ((w.install_enabled ≡ true) ↔ Failed found)
    × ((w.uninstall_enabled ≡ true) ↔ HasStartType found)
    × ((w.start_enabled ≡ true) ↔ (HasStartType found × (state ≡ answered state_stopped)))
    × ((w.stop_enabled ≡ true) ↔ (HasStartType found × (state ≡ answered state_running)))
buttons_follow_service_example = buttons_follow_service tt free_ports always at_rest panel

chosen_start_type_arrives_example :
    (args : List (List Char)) × (c : AppConfig) × ((choose_start_type (pos 2) panel).launched
      ≡ args ∷ [])
    × (main_config
          (chars "desk")
          (quote ∷ chars "C:\\rm.exe" ++ quote ∷ blank ∷ elevated_arg_line args)
        ≡ some c)
    × (run c ≡ set_start_type (start_type_by_index (pos 2)))
    × (start_type_by_index (pos 2) ≡ 4)
    × (get_elem? row_texts 2 ≡ some (start_type_label (start_type_by_index (pos 2))))
chosen_start_type_arrives_example =
    chosen_start_type_arrives 2 panel (chars "C:\\rm.exe") (chars "desk") (omega arith) refl
      (refl, refl)

-- A manager whose calls all succeed; its state counts the starts.
abbrev willing : Manager ℕ
willing = record {
  connect = λ m. true;
  open_service = λ m. true;
  create_service = λ t m. (m, true);
  start = λ m. (m, true);
  control_stop = λ m. (m, some 1);
  query = λ m. (m, some 1);
  delete_service = λ m. (m, true);
  start_type = λ m. some 2;
  update_start_type = λ t m. (m, true);
  is_running = λ m. true;
}

abbrev writable : WriteEnv
writable = record { create = true; set_password = true; set_name = true; set_port = true }

abbrev flags : AppConfig
flags = flag_defaults (chars "desk")

panel_port : atoi (trim_space (chars " 8080 ")) ≡ some (pos 8080)
unfolding trim_space atoi parse_decimal parse_digits digit_value
panel_port = refl

panel-HasFields : HasFields panel 8080
panel-HasFields = (panel_port, omega arith, omega arith, λ e. cc)

room :
    (write_config writable
      (settings (chars "p q") 8080 (trim_space (chars " Living Room ")))
      none).1
    ≡ true
unfolding write_config
room = refl

saved_settings_reach_service_example :
    let cfg = settings (chars "p q") 8080 (trim_space (chars " Living Room ")) in
    (args : List (List Char)) × (c : AppConfig) × ((save_clicked
        (chars "C:\\rm.exe")
        (is_there_with 3)
        free_ports
        panel).launched
      ≡ args ∷ [])
    × (main_config
          (chars "desk")
          (quote ∷ chars "C:\\rm.exe" ++ quote ∷ blank ∷ elevated_arg_line args)
        ≡ some c)
    × (run c ≡ apply_config cfg)
    × (with_stored (apply_config_elevated willing writable cfg (λ n. 0) (none, 0)).0.0 flags
        ≡ record flags {
          pass = cfg.password;
          port = cfg.port;
          name = if str_eq cfg.name "" then flags.name else cfg.name;
        })
unfolding service_installed
saved_settings_reach_service_example =
    saved_settings_reach_service willing 0 (λ n. 0) writable none (chars "C:\\rm.exe")
      (chars "desk") (is_there_with 3) free_ports panel 8080 flags panel-HasFields refl (refl, refl)
      room

saved_settings_reach_login_example :
    let name = trim_space (chars " Living Room ") in
    let q = save_clicked (chars "C:\\rm.exe") not_there free_ports panel in
    (cmd : List Char) × (c : AppConfig) × (q.launched ≡ [])
    × (q.ctrl ≡ apply free_ports (settings (chars "p q") 8080 name) controller)
    × (q.run_key ≡ some (some cmd))
    × (main_config (chars "desk") cmd ≡ some c)
    × (c.pass ≡ text (chars "p q"))
    × (c.port ≡ pos 8080)
    × (c.name ≡ (if is_nil (trim_space name) then text (trim_space (chars "desk")) else text name))
    × (mode c ≡ "ui")
unfolding service_installed
saved_settings_reach_login_example =
    saved_settings_reach_login (chars "C:\\rm.exe") (chars "desk") not_there free_ports panel 8080
      (chars "rm.exe") panel-HasFields refl refl

-- The field for the port holds a word.
abbrev mistyped : Panel (Unit {0})
mistyped = record panel { widgets = record shown { port_text = chars "80x" } }

no_number : atoi (trim_space (chars "80x")) ≡ none
unfolding trim_space atoi parse_decimal parse_digits digit_value
no_number = refl

no_port_number : (n : ℕ) → atoi (trim_space (chars "80x")) ≡ some (pos n) → (n < 1) ⊎ (65535 < n)
no_port_number n h = absurd (cc (no_number))

invalid_fields_change_nothing_example :
    (w : Warning) × (save_clicked (chars "rm.exe") not_there free_ports mistyped
      ≡ record mistyped { warnings = w ∷ [] })
    × (install_clicked mistyped ≡ record mistyped { warnings = w ∷ [] })
invalid_fields_change_nothing_example =
    invalid_fields_change_nothing (chars "rm.exe") not_there free_ports mistyped
      (inl no_port_number)

abbrev one_phone : ClientRegistry
one_phone = (register "phone" "10.0.0.7" 40 new_client_registry).0

abbrev forty : TimeText
forty = record { format = λ t. some "40"; parse = λ s. some 40 }

-- The service runs and answers on its pipe.
abbrev at_work : Observed
at_work = record {
  running = is_there_with 4;
  state = is_there_with 4;
  start_type = is_there_with 2;
  piped = query_status_pipe forty (some (serve_status forty one_phone));
}

phone-HasText : All (HasText forty) (snapshot one_phone)
unfolding snapshot register new_client_registry insert
phone-HasText = (("40", refl, refl), tt)

panel_shows_service_devices_example :
    let q = tick tt free_ports always at_work panel in
    (q.ctrl.running ≡ false)
    × ((q.widgets.items ≡ map sent_client (snapshot one_phone))
        × (q.widgets.dev_count ≡ count_text (map sent_client (snapshot one_phone))))
unfolding query
panel_shows_service_devices_example =
    panel_shows_service_devices tt free_ports always at_work panel forty one_phone refl refl
      phone-HasText
