-- ===== src/Service/Examples.antt =====
-- Tests and instances for the service calls of server/service_windows.go.
use remote_mouse.Common.{ℕ, zero, suc, Bool, true, false, Option, none, some, ◌≡◌, refl, arith}
use remote_mouse.Common.Int.{pos}
use remote_mouse.Config.{ServerConfig, WriteEnv, read_config, write_config}
use remote_mouse.Service.{Manager, stop_service, install_service, is_done, poll}
use remote_mouse.Service.Stopping.{ReportsState, is_cut_off, stop_service_ends}
use remote_mouse.Service.Setup.{install_over_installed_writes_config}

-- A manager of one service, with how often it must be asked until a stop is done.
record Scm : Type 0 where
  installed : Bool
  running : Bool
  pending : ℕ
  kind : ℕ

stop_step : Scm → ℕ → Scm × Option ℕ
stop_step m zero = (record m { running = false }, some 1)
stop_step m (suc n) = (record m { pending = n; running = true }, some 3)

abbrev scm : Manager Scm
scm = record {
  connect = λ m. true;
  open_service = λ m. m.installed;
  create_service = λ t m. (record m { installed = true; kind = t }, true);
  start = λ m. (record m { running = true }, true);
  control_stop = λ m. stop_step m m.pending;
  query = λ m. stop_step m m.pending;
  delete_service = λ m. (record m { installed = false }, true);
  start_type = λ m. some m.kind;
  update_start_type = λ t m. (record m { kind = t }, true);
  is_running = λ m. m.running;
}

stop_step_tells : (m : Scm) (n : ℕ) → (stop_step m n).1 ≡ some 1 → (stop_step m n).0.running ≡ false
unfolding stop_step
stop_step_tells m zero e = refl
stop_step_tells m (suc n) e = ground arith

scm-ReportsState : ReportsState scm
scm-ReportsState = record {
  query_tells = λ m. stop_step_tells m m.pending;
  control_tells = λ m. stop_step_tells m m.pending;
}

abbrev busy : Scm
busy = record { installed = true; running = true; pending = 3; kind = 2 }

abbrev prompt : ℕ → ℕ
prompt n = 5

stop-busy : is_done (stop_service scm prompt busy).1 ≡ true
unfolding stop_service poll stop_step
stop-busy = refl

stop_service_ends_example : is_cut_off (stop_service scm prompt busy).1 ≡ false
stop_service_ends_example = stop_service_ends scm prompt busy

abbrev home : ServerConfig
home = record { password = "1234"; port = pos 27500; name = "PC" }

abbrev all_succeed : WriteEnv
all_succeed = record { create = true; set_password = true; set_name = true; set_port = true }

write-home : (write_config all_succeed home none).1 ≡ true
unfolding write_config
write-home = refl

install_over_installed_writes_config_example :
    let ((root', m'), ok) = install_service scm all_succeed home (none, busy) in
    (ok ≡ false) × (m' ≡ busy) × (read_config root' ≡ (home, true))
install_over_installed_writes_config_example =
    install_over_installed_writes_config scm all_succeed home none busy 27500 refl (omega arith)
      write-home refl
