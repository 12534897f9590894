-- ===== src/Service.antt =====
-- server/service_windows.go: installation, start, stop and configuration of the Windows service. The
-- service control manager (golang.org/x/sys/windows/svc/mgr) is a parameter; each of its calls may
-- fail. The configuration in the registry is Config's. Handles, messages and printed lines are left
-- out.
pub mod Stopping
pub mod Setup
mod Examples
use remote_mouse.Common.{
  ℕ, zero, suc, ◌+◌, ◌==◌, String, Bool, true, false, not, ◌&&◌, ◌||◌, Option, none, some, List, [],
  ◌∷◌, if◌then◌else◌, ltb,
}
use remote_mouse.Config.{ServerConfig, Values, WriteEnv, write_config}

-- `M` is the manager's state. A call returns the new state with whether it succeeded, or with what
-- it answered if it did.
pub record Manager {ℓ} (M : Type ℓ) : Type ℓ where
  pub connect : M → Bool
  pub open_service : M → Bool
  pub create_service : ℕ → M → M × Bool
  pub start : M → M × Bool
  pub control_stop : M → M × Option ℕ
  pub query : M → M × Option ℕ
  pub delete_service : M → M × Bool
  pub start_type : M → Option ℕ
  pub update_start_type : ℕ → M → M × Bool
  -- serviceRunning(), which uses a connection of its own.
  pub is_running : M → Bool

-- svc.Stopped and mgr.StartAutomatic.
abbrev pub stopped : ℕ
stopped = 1

abbrev pub start_automatic : ℕ
start_automatic = 2

-- Milliseconds that stopService waits at most, and between two polls.
abbrev pub stop_timeout : ℕ
stop_timeout = 10000

abbrev pub poll_interval : ℕ
poll_interval = 300

-- How stopService ends; `out_of_polls` stands for a loop that the fuel cut off.
pub data StopResult : Type 0 where
  stop_done stop_failed query_failed timed_out out_of_polls : StopResult

abbrev pub is_done : StopResult → Bool
is_done stop_done = true
is_done _ = false

-- A round lasts at least the poll interval, so this many last longer than the timeout.
abbrev pub max_polls : ℕ
max_polls = 34

-- How the loop ends at state `st` after `now` milliseconds.
abbrev pub finish : ℕ → ℕ → StopResult
finish now st =
    if st == stopped then stop_done else if ltb now stop_timeout then out_of_polls else timed_out

-- The error of a service that is not there, or cannot be asked for.
abbrev pub reachable {ℓ} : {M : Type ℓ} → Manager M → M → Bool
reachable mgr m = mgr.connect m && mgr.open_service m

module _ {ℓ} {M : Type ℓ} (mgr : Manager M) where
  unfoldable pub start_service : M → M × Bool
  start_service m = if reachable mgr m then mgr.start m else (m, false)

  abbrev pub after_query : (ℕ → M → M × StopResult) → M × Option ℕ → M × StopResult
  after_query go_on (m, none) = (m, query_failed)
  after_query go_on (m, some st) = go_on st m

  -- The loop that polls, on fuel. `late n` is how many milliseconds a round takes beyond the poll
  -- interval, `now` the time since the stop was sent, `st` the last state that was seen.
  unfoldable pub poll : (ℕ → ℕ) → ℕ → ℕ → ℕ → M → M × StopResult
  poll late zero now st m = (m, finish now st)
  poll late (suc fuel) now st m =
      let rest =
        after_query (λ st' m'. poll late fuel (now + poll_interval + late fuel) st' m')
          (mgr.query m) in
      if not (st == stopped) && ltb now stop_timeout then rest else (m, finish now st)

  abbrev pub after_control : (ℕ → ℕ) → M × Option ℕ → M × StopResult
  after_control late (m, none) = (m, stop_failed)
  after_control late (m, some st) = poll late max_polls 0 st m

  unfoldable pub stop_service : (ℕ → ℕ) → M → M × StopResult
  stop_service late m =
      if reachable mgr m then after_control late (mgr.control_stop m) else (m, stop_failed)

  -- A stop error is dropped.
  unfoldable pub restart_service : (ℕ → ℕ) → M → M × Bool
  restart_service late m = start_service (stop_service late m).0

  abbrev pub update_from : ℕ → M → Option ℕ → M × Bool
  update_from t m none = (m, false)
  update_from t m (some old) = mgr.update_start_type t m

  unfoldable pub set_start_type : ℕ → M → M × Bool
  set_start_type t m = if reachable mgr m then update_from t m (mgr.start_type m) else (m, false)

  unfoldable pub uninstall_service : M → M × Bool
  uninstall_service m =
      if reachable mgr m then mgr.delete_service (mgr.control_stop m).0 else (m, false)

  -- Creates the service and starts it; an error of the start is dropped.
  abbrev pub create_and_start : M → M × Bool
  create_and_start m =
      let (m', created) = mgr.create_service start_automatic m in
      if created then ((mgr.start m').0, true) else (m', false)

  unfoldable pub install_service :
      WriteEnv → ServerConfig → Option Values × M → (Option Values × M) × Bool
  install_service e cfg (root, m) =
      let (root', written) = write_config e cfg root in
      let (m', created) = create_and_start m in
      if not written
      then ((root', m), false)
      else if not (mgr.connect m)
      then ((root', m), false)
      else if mgr.open_service m
      then ((root', m), false)
      else ((root', m'), created)

  unfoldable pub apply_config_elevated :
      WriteEnv → ServerConfig → (ℕ → ℕ) → Option Values × M → (Option Values × M) × Bool
  apply_config_elevated e cfg late (root, m) =
      let (root', written) = write_config e cfg root in
      let (m', restarted) = restart_service late m in
      if not written
      then ((root', m), false)
      else if mgr.is_running m
      then ((root', m'), restarted)
      else ((root', m), true)
