-- ===== src/Run.antt =====
-- server/run_windows.go: what the process does in each mode. A mode's own code is elsewhere; the
-- installation and the configuration get the password, the port and the name.
mod Flagged
mod Examples
use remote_mouse.Common.{ℕ, String, Bool, true, false, List, [], ◌∷◌, if◌then◌else◌, str_eq}
use remote_mouse.Config.{AppConfig, ServerConfig, mode}
use remote_mouse.StartType.{start_type_from_arg}

-- serverConfig{Password: cfg.pass, Port: cfg.port, Name: cfg.name}
abbrev pub server_config : AppConfig → ServerConfig
server_config c = record { password = c.pass; port = c.port; name = c.name }

pub data Action : Type 0 where
  serve_standalone serve_ui run_service run_agent : AppConfig → Action
  probe_desktop uninstall_service start_service stop_service : Action
  install_service apply_config : ServerConfig → Action
  set_start_type : ℕ → Action
  refuse_start_type : String → Action

abbrev pub start_type_action : String → ℕ × Bool → Action
start_type_action s (t, true) = set_start_type t
start_type_action s (t, false) = refuse_start_type s

-- The switch of run over the mode.
unfoldable pub run_in : AppConfig → String → Action
unfolding start_type_from_arg
run_in c m =
    if str_eq m "standalone"
    then serve_standalone c
    else if str_eq m "probe-desktop"
    then probe_desktop
    else if str_eq m "install-service"
    then install_service (server_config c)
    else if str_eq m "uninstall-service"
    then uninstall_service
    else if str_eq m "start-service"
    then start_service
    else if str_eq m "stop-service"
    then stop_service
    else if str_eq m "set-start-type"
    then start_type_action c.set_start_type (start_type_from_arg c.set_start_type)
    else if str_eq m "apply-config"
    then apply_config (server_config c)
    else if str_eq m "service"
    then run_service c
    else if str_eq m "agent"
    then run_agent c
    else serve_ui c

unfoldable pub run : AppConfig → Action
unfolding mode run_in
run c = run_in c (mode c)
