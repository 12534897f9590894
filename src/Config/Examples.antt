-- ===== src/Config/Examples.antt =====
-- Instances for server/config_windows.go and server/main.go.
use remote_mouse.Common.{true, false, none, ◌≡◌, refl}
use remote_mouse.Common.Int.{pos}
use remote_mouse.Config.{ServerConfig, AppConfig, WriteEnv, write_config, mode}

abbrev home : ServerConfig
home = record { password = "1234"; port = pos 27500; name = "PC" }

abbrev all_succeed : WriteEnv
all_succeed = record { create = true; set_password = true; set_name = true; set_port = true }

write-home : (write_config all_succeed home none).1 ≡ true
unfolding write_config
write-home = refl

-- The command line that the service manager starts.
abbrev service_line : AppConfig
service_line = record {
  name = "PC";
  pass = "1234";
  port = pos 27500;
  notray = false;
  service = true;
  agent = false;
  absolute = false;
  pipe = "";
  install_service = false;
  uninstall_service = false;
  probe_desktop = false;
  standalone = false;
  inject_log = false;
  start_service = false;
  stop_service = false;
  set_start_type = "";
  apply_config = false;
}

mode-service_line : mode service_line ≡ "service"
unfolding mode
mode-service_line = refl
