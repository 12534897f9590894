-- ===== src/ServiceStatus.antt =====
-- server/ui_service_windows.go: what the panel asks of the service control manager, with read-only
-- access, and the configuration with which it opens. The answers of the manager are parameters.
mod Closing
mod Examples
use remote_mouse.Common.{
  ℕ, ◌==◌, String, Bool, true, false, not, Option, none, some, List, [], ◌∷◌, if◌then◌else◌, str_eq,
}
use remote_mouse.Config.{ServerConfig, AppConfig, Values, read_config}
use remote_mouse.Handles.{HandleEvent, opened, closed, manager, service}

-- The answers to the calls of one query: does the manager open, does the service open with the
-- access that is asked for, and what does the last call return if it succeeds.
pub record Answers : Type 0 where
  pub manager_opens : Bool
  pub service_opens : Bool
  pub answer : Option ℕ

-- How far a query came.
pub data Queried : Type 0 where
  no_manager no_service unreadable : Queried
  answered : ℕ → Queried

abbrev pub read_answer : Option ℕ → Queried
read_answer none = unreadable
read_answer (some n) = answered n

-- The calls that serviceRunning, serviceState and serviceStartType have in common, with the handles.
unfoldable pub query : Answers → Queried × List HandleEvent
query a =
    if not a.manager_opens
    then (no_manager, [])
    else if not a.service_opens
    then (no_service, opened manager ∷ closed manager ∷ [])
    else (
      read_answer a.answer,
      opened manager ∷ opened service ∷ closed service ∷ closed manager ∷ [],
    )

-- The states of a service.
abbrev pub state_stopped : ℕ
state_stopped = 1

abbrev pub state_start_pending : ℕ
state_start_pending = 2

abbrev pub state_stop_pending : ℕ
state_stop_pending = 3

abbrev pub state_running : ℕ
state_running = 4

abbrev pub is_running_state : Queried → Bool
is_running_state (answered s) = s == state_running
is_running_state _ = false

unfoldable pub service_running : Answers → Bool × List HandleEvent
unfolding query
service_running a = let (q, trace) = query a in (is_running_state q, trace)

abbrev pub state_text : Queried → String
state_text no_manager = "未知"
state_text no_service = "未安装"
state_text unreadable = "未知"
state_text (answered s) =
    if s == state_running
    then "运行中"
    else if s == state_stopped
    then "已停止"
    else if s == state_start_pending
    then "启动中"
    else if s == state_stop_pending
    then "停止中"
    else "未知"

unfoldable pub service_state : Answers → String × List HandleEvent
unfolding query
service_state a = let (q, trace) = query a in (state_text q, trace)

abbrev pub start_type_answer : Queried → ℕ × Bool
start_type_answer (answered t) = (t, true)
start_type_answer _ = (0, false)

unfoldable pub service_start_type : Answers → (ℕ × Bool) × List HandleEvent
unfolding query
service_start_type a = let (q, trace) = query a in (start_type_answer q, trace)

unfoldable pub service_installed : Answers → Bool × List HandleEvent
unfolding service_start_type
service_installed a = let ((t, ok), trace) = service_start_type a in (ok, trace)

-- The stored configuration in place of the flags'; an empty name keeps the flag's.
unfoldable pub with_stored : Option Values → AppConfig → AppConfig
with_stored root cfg =
    let (sc, ok) = read_config root in
    let stored : AppConfig = record cfg { pass = sc.password; port = sc.port } in
    if not ok then cfg else if str_eq sc.name "" then stored else record stored { name = sc.name }

-- The configuration of serveUI's panel.
unfoldable pub serve_ui_config : Answers → Option Values → AppConfig → AppConfig
unfolding service_installed with_stored
serve_ui_config a root cfg = if (service_installed a).0 then with_stored root cfg else cfg
