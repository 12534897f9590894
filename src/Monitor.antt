-- ===== src/Monitor.antt =====
-- server/service_windows.go: agentMonitor, which keeps one agent process on each desktop of the
-- console session that needs one. Windows is a state of its own: the processes and pipe connections
-- that are open, and the calls of Accept that acceptWithTimeout gave up on and that still wait. What
-- else Windows answers during a tick is an argument. Logs, the ticker and an error of Accept, which a
-- closed listener gives, are left out, and so is the lock of the monitor, which one goroutine takes.
pub mod Writers
pub mod Desktops
pub mod Reconcile
pub mod Accept
mod Examples
use remote_mouse.Common.{
  ℕ, suc, ◌+◌, ◌-◌, ◌==◌, String, Bool, true, false, not, ◌||◌, ◌&&◌, Option, none, some, List, [],
  ◌∷◌, ◌++◌, map, if◌then◌else◌, str_eq, keep_if,
}
use remote_mouse.Common.Int.{ℤ}
use remote_mouse.Desktop.{
  TokenStrategy, token_user, token_winlogon, token_strategy_for, session_lock_state,
  desired_desktops, plan_agents,
}
use remote_mouse.Clients.{delete}

-- `h` is a process handle; `conn` is the agent's end of the pipe.
pub record AgentProc : Type 0 where
  pub h : ℕ
  pub conn : Option ℕ

-- What spawnAgentOnDesktop starts: the session and kind of the token, the desktop and the flags of
-- the command line.
pub record Process : Type 0 where
  pub session : ℕ
  pub token : TokenStrategy
  pub desktop : String
  pub absolute : Bool
  pub inject_log : Bool

pub record Os : Type 0 where
  pub processes : List (ℕ × Process)
  pub conns : List (ℕ × String)
  pub next : ℕ
  pub pending : ℕ

-- `agents` is the map keyed by desktop name; `writer` is the writer of the pipe injector: nil, or a
-- fan-out over these connections.
pub record Monitor : Type 0 where
  pub inject_log : Bool
  pub cur_sess : ℕ
  pub agents : List (String × AgentProc)
  pub writer : Option (List ℕ)
  pub os : Os

-- The answers of one tick: the console session and its lock flags, which processes still run, which
-- tokens can be had, which processes can be created, which of these connect in time, and whether
-- the newest of several waiting calls of Accept gets the next connection.
pub record Tick : Type 0 where
  pub sess : ℕ
  pub query : ℕ → Option ℤ
  pub runs : ℕ → Bool
  pub has_token : TokenStrategy → Bool
  pub spawns : String → Bool
  pub connects : String → Bool
  pub newest_wins : ℕ → Bool

unfoldable pub proc_alive : Tick → ℕ → Bool
proc_alive t h = if h == 0 then false else t.runs h

-- m.agents[desk]
unfoldable pub find_agent : String → List (String × AgentProc) → Option AgentProc
find_agent desk [] = none
find_agent desk ((d, ap) ∷ r) =
    let rest = find_agent desk r in if str_eq d desk then some ap else rest

unfoldable pub remove_agent : String → List (String × AgentProc) → List (String × AgentProc)
remove_agent desk l = keep_if (λ kv. not (str_eq kv.0 desk)) l

abbrev pub close_conn : Option ℕ → Os → Os
close_conn none os = os
close_conn (some c) os = record os { conns = delete c os.conns }

abbrev pub end_process : ℕ → Os → Os
end_process h os = if h == 0 then os else record os { processes = delete h os.processes }

unfoldable pub end_agent : AgentProc → Os → Os
end_agent ap os = end_process ap.h (close_conn ap.conn os)

abbrev pub end_found : Option AgentProc → Os → Os
end_found none os = os
end_found (some ap) os = end_agent ap os

unfoldable pub stop_agent : String → Monitor → Monitor
stop_agent desk m = record m {
  agents = remove_agent desk m.agents;
  os = end_found (find_agent desk m.agents) m.os;
}

unfoldable pub end_all : List (String × AgentProc) → Os → Os
end_all [] os = os
end_all ((d, ap) ∷ r) os = end_all r (end_agent ap os)

unfoldable pub kill_all : Monitor → Monitor
kill_all m = record m { agents = []; os = end_all m.agents m.os; writer = none }

abbrev pub is_user : TokenStrategy → Bool
is_user token_user = true
is_user token_winlogon = false

-- The new process, under a new handle.
abbrev pub create_process : String → Monitor → Os
create_process desk m =
    let strat = token_strategy_for desk in
    let p : Process = record {
      session = m.cur_sess;
      token = strat;
      desktop = desk;
      absolute = not (is_user strat);
      inject_log = m.inject_log;
    } in
    record m.os { processes = m.os.processes ++ (m.os.next, p) ∷ []; next = suc m.os.next }

-- acceptWithTimeout: the agent's connection goes to this call, or to one that was given up on, which
-- drops it; and a call that times out goes on waiting.
unfoldable pub accept_with_timeout : Tick → String → Os → Os × Option ℕ
accept_with_timeout t desk os =
    if t.connects desk
    then (if os.pending == 0 || t.newest_wins os.pending
        then (
          record os { conns = os.conns ++ (os.next, desk) ∷ []; next = suc os.next },
          some os.next,
        )
        else (os, none))
    else (record os { pending = suc os.pending }, none)

-- The agent is bound, or its process is ended because it did not connect.
abbrev pub bind_agent : String → ℕ → Os × Option ℕ → Monitor → Monitor
bind_agent desk h (os, none) m = record m { os = record os { processes = delete h os.processes } }
bind_agent desk h (os, some c) m = record m {
  agents = remove_agent desk m.agents ++ (desk, record { h = h; conn = some c }) ∷ [];
  os = os;
}

unfoldable pub spawn_one : Tick → Monitor → String → Monitor
spawn_one t m desk =
    let bound = bind_agent desk m.os.next (accept_with_timeout t desk (create_process desk m)) m in
    if t.has_token (token_strategy_for desk) && t.spawns desk then bound else m

abbrev pub conns_of : List (String × AgentProc) → List ℕ
conns_of [] = []
conns_of ((d, ap) ∷ r) = let rest = conns_of r in elim ap.conn [ none ↦ rest | some c ↦ c ∷ rest ]

abbrev pub fan_out : List ℕ → Option (List ℕ)
fan_out [] = none
fan_out (c ∷ cs) = some (c ∷ cs)

unfoldable pub rebind_writers : Monitor → Monitor
rebind_writers m = record m { writer = fan_out (conns_of m.agents) }

unfoldable pub stop_agents : List String → Monitor → Monitor
stop_agents [] m = m
stop_agents (d ∷ ds) m = stop_agents ds (stop_agent d m)

unfoldable pub spawn_all : Tick → List String → Monitor → Monitor
spawn_all t [] m = m
spawn_all t (d ∷ ds) m = spawn_all t ds (spawn_one t m d)

abbrev pub desks : List (String × AgentProc) → List String
desks = map (λ kv. kv.0)

-- The desktops whose agents run, and those whose agents have exited.
unfoldable pub alive_desks : Tick → List (String × AgentProc) → List String
alive_desks t l = desks (keep_if (λ kv. proc_alive t kv.1.h) l)

unfoldable pub dead_desks : Tick → List (String × AgentProc) → List String
dead_desks t l = desks (keep_if (λ kv. not (proc_alive t kv.1.h)) l)

abbrev pub is_empty {ℓ} : {A : Type ℓ} → List A → Bool
is_empty [] = true
is_empty _ = false

-- The tick once the lock flags are known, and the session is the current one.
unfoldable pub reconcile_desktops : Tick → ℤ → Bool → Monitor → Monitor
reconcile_desktops t flags sess_changed m =
    let dead = dead_desks t m.agents in
    let (stop, start) = plan_agents (alive_desks t m.agents) (desired_desktops flags) in
    let changed =
      sess_changed || not (is_empty dead) || not (is_empty stop) || not (is_empty start) in
    let m' = spawn_all t start (stop_agents stop (stop_agents dead m)) in
    if changed then rebind_writers m' else m'

abbrev pub enter_session : Tick → Monitor → Monitor
enter_session t m = if t.sess == m.cur_sess then m else record (kill_all m) { cur_sess = t.sess }

abbrev pub reconcile_with : Tick → Option ℤ → Monitor → Monitor
reconcile_with t none m = m
reconcile_with t (some flags) m =
    reconcile_desktops t flags (not (t.sess == m.cur_sess)) (enter_session t m)

unfoldable pub reconcile : Tick → Monitor → Monitor
reconcile t m = reconcile_with t (session_lock_state t.query t.sess) m

-- The loop of `run` over its ticks, and the end when the service stops.
unfoldable pub run : List Tick → Monitor → Monitor
run [] m = kill_all m
run (t ∷ ts) m = run ts (reconcile t m)
