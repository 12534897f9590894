-- ===== src/Monitor/Examples.antt =====
-- Instances for server/service_windows.go.
use remote_mouse.Common.{true, false, some, [], ◌∷◌, ◌≡◌, refl}
use remote_mouse.Common.Int.{pos}
use remote_mouse.Desktop.{contains, desired_desktops, session_lock_state}
use remote_mouse.Monitor.{Monitor, Tick, AgentProc, Os, fan_out, conns_of, reconcile}
use remote_mouse.Monitor.Writers.{IsBound, reconcile-IsBound}
use remote_mouse.Monitor.Desktops.{bound, AllWork}
use remote_mouse.Monitor.Reconcile.{reconcile_reaches_desired}
use remote_mouse.Monitor.Accept.{reconcile_all, late_accept_starves_monitor}

-- One agent, on the ordinary desktop of session 1.
abbrev one_agent : Monitor
one_agent = record {
  inject_log = false;
  cur_sess = 1;
  agents = ("Default", record { h = 3; conn = some 4 }) ∷ [];
  writer = some (4 ∷ []);
  os = record { processes = []; conns = (4, "Default") ∷ []; next = 5; pending = 0 };
}

-- As before, but an agent once connected too late.
abbrev after_late : Monitor
after_late = record {
  inject_log = false;
  cur_sess = 1;
  agents = ("Default", record { h = 3; conn = some 4 }) ∷ [];
  writer = some (4 ∷ []);
  os = record { processes = []; conns = (4, "Default") ∷ []; next = 5; pending = 1 };
}

-- Session 1 is locked, its agents run, and all that the monitor tries works out.
abbrev locked : Tick
locked = record {
  sess = 1;
  query = λ s. some (pos 0);
  runs = λ h. true;
  has_token = λ s. true;
  spawns = λ d. true;
  connects = λ d. true;
  newest_wins = λ n. false;
}

-- Session 1 is unlocked, and its agents have exited.
abbrev unlocked : Tick
unlocked = record {
  sess = 1;
  query = λ s. some (pos 1);
  runs = λ h. false;
  has_token = λ s. true;
  spawns = λ d. true;
  connects = λ d. true;
  newest_wins = λ n. false;
}

unlock_query : session_lock_state unlocked.query unlocked.sess ≡ some (pos 1)
unfolding session_lock_state
unlock_query = refl

lock_query : session_lock_state locked.query locked.sess ≡ some (pos 0)
unfolding session_lock_state
lock_query = refl

all_work : AllWork locked
all_work = record { tokens = λ s. refl; created = λ d. refl; connected = λ d. refl }

-- The lock adds an agent on the secure desktop, and the injector writes to both.
lock-writer : (reconcile locked one_agent).writer ≡ some (4 ∷ 6 ∷ [])
unfolding reconcile session_lock_state remote_mouse.Monitor.reconcile_desktops
    remote_mouse.Monitor.dead_desks remote_mouse.Monitor.alive_desks remote_mouse.Monitor.proc_alive
    desired_desktops remote_mouse.Desktop.desktop_for_flags remote_mouse.Desktop.plan_agents
    remote_mouse.Monitor.spawn_all remote_mouse.Monitor.spawn_one remote_mouse.Monitor.stop_agents
    remote_mouse.Monitor.accept_with_timeout remote_mouse.Monitor.remove_agent
    remote_mouse.Monitor.rebind_writers remote_mouse.Desktop.token_strategy_for
lock-writer = refl

reconcile-IsBound_example : IsBound (reconcile locked one_agent)
reconcile-IsBound_example = reconcile-IsBound locked one_agent refl

reconcile_reaches_desired_example :
    bound (reconcile locked one_agent) "Winlogon" ≡ contains (desired_desktops (pos 0)) "Winlogon"
reconcile_reaches_desired_example =
    reconcile_reaches_desired locked (pos 0) one_agent (refl, tt) lock_query all_work refl
      "Winlogon"

winlogon_unwanted : contains (desired_desktops (pos 1)) "Winlogon" ≡ false
unfolding desired_desktops remote_mouse.Desktop.desktop_for_flags
winlogon_unwanted = refl

late_accept_starves_monitor_example :
    bound (reconcile_all (locked ∷ locked ∷ []) after_late) "Winlogon" ≡ false
late_accept_starves_monitor_example =
    late_accept_starves_monitor (locked ∷ locked ∷ []) after_late "Winlogon"
      (λ n. refl, (λ n. refl, tt)) refl refl
