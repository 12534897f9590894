-- ===== src/Monitor/Reconcile.antt =====
-- server/service_windows.go: after a tick, agents run on the desktops that need one.
use remote_mouse.Common.{
  Bool, false, not, ◌&&◌, Option, none, some, List, [], ◌∷◌, String, ◌≡◌, refl, ◌∙◌, arith,
}
use remote_mouse.Common.Int.{ℤ}
use remote_mouse.Desktop.{contains, session_lock_state, desired_desktops, plan_agents}
use remote_mouse.Desktop.Plan.{contains-keep_if}
use remote_mouse.Monitor.{
  Monitor, Tick, AgentProc, Os, stop_agents, stop_agent, spawn_all, dead_desks, alive_desks,
  end_agent, end_all, end_found, find_agent, reconcile_desktops, enter_session, reconcile, kill_all,
  rebind_writers,
}
use remote_mouse.Monitor.Desktops.{
  bound, Unique, partition, bound-stop_agents, AllWork, bound-spawn_all, bound-spawn_all_le,
}

pending-end_agent : (ap : AgentProc) (os : Os) → (end_agent ap os).pending ≡ os.pending
unfolding end_agent
pending-end_agent ap os = ground arith

pending-end_all : (l : List (String × AgentProc)) (os : Os) → (end_all l os).pending ≡ os.pending
unfolding end_all
pending-end_all [] os = refl
pending-end_all ((d, ap) ∷ l) os = pending-end_all l (end_agent ap os) ∙ pending-end_agent ap os

pending-end_found : (o : Option AgentProc) (os : Os) → (end_found o os).pending ≡ os.pending
pending-end_found none os = refl
pending-end_found (some ap) os = pending-end_agent ap os

pub pending-stop_agents :
    (ds : List String) (m : Monitor) → (stop_agents ds m).os.pending ≡ m.os.pending
unfolding stop_agents stop_agent
pending-stop_agents [] m = refl
pending-stop_agents (d ∷ ds) m =
    pending-stop_agents ds (stop_agent d m) ∙ pending-end_found (find_agent d m.agents) m.os

-- The agents after the tick's stops and spawns, whether the writers are bound again or not.
pub bound-reconcile_desktops :
    (t : Tick) (flags : ℤ) (b : Bool) (m : Monitor) (d : String)
    → let (stop, start) = plan_agents (alive_desks t m.agents) (desired_desktops flags) in
      bound (reconcile_desktops t flags b m) d
      ≡ bound (spawn_all t start (stop_agents stop (stop_agents (dead_desks t m.agents) m))) d
unfolding reconcile_desktops rebind_writers
bound-reconcile_desktops t flags b m d = ground arith

-- What is left after the stops, by the sets involved.
left_over :
    (t : Tick) (flags : ℤ) (m : Monitor) (d : String)
    → Unique m.agents
    → let (stop, start) = plan_agents (alive_desks t m.agents) (desired_desktops flags) in
      let a = contains (alive_desks t m.agents) d in
      let w = contains (desired_desktops flags) d in
      (bound (stop_agents stop (stop_agents (dead_desks t m.agents) m)) d ≡ (a && w))
      × (contains start d ≡ (w && not a))
unfolding plan_agents
left_over t flags m d u =
    let alive = alive_desks t m.agents in
    let dead = dead_desks t m.agents in
    let want = desired_desktops flags in
    let (stop, start) = plan_agents alive want in
    ground (
      arith,
      bound-stop_agents stop (stop_agents dead m) d,
      bound-stop_agents dead m d,
      partition t m.agents d u,
      contains-keep_if (λ e. not (contains want e)) alive d,
      contains-keep_if (λ e. not (contains alive e)) want d,
    )

enter_session-Unique :
    (t : Tick) (m : Monitor) → Unique m.agents → Unique (enter_session t m).agents
unfolding kill_all
enter_session-Unique t m u = ground arith

pub enter_session-pending : (t : Tick) (m : Monitor) → (enter_session t m).os.pending ≡ m.os.pending
unfolding kill_all
enter_session-pending t m = ground (arith, pending-end_all m.agents m.os)

-- When a tick learns the lock flags, all tokens, processes and connections that it asks for work
-- out, and no earlier call of Accept still waits, then after the tick an agent is bound for exactly
-- the desktops that the flags ask for; if before it no desktop was twice in the map. The agents
-- that were there before may run or have exited, and may be of another session.
pub reconcile_reaches_desired :
    (t : Tick) (flags : ℤ) (m : Monitor)
    → Unique m.agents
    → session_lock_state t.query t.sess ≡ some flags
    → AllWork t
    → m.os.pending ≡ 0
    → (d : String) → bound (reconcile t m) d ≡ contains (desired_desktops flags) d
unfolding reconcile
reconcile_reaches_desired t flags m u e w z d =
    let m1 : Monitor = enter_session t m in
    let alive = alive_desks t m1.agents in
    let (stop, start) = plan_agents alive (desired_desktops flags) in
    let m2 : Monitor = stop_agents stop (stop_agents (dead_desks t m1.agents) m1) in
    let zero2 : m2.os.pending ≡ 0 =
      pending-stop_agents stop (stop_agents (dead_desks t m1.agents) m1)
      ∙ pending-stop_agents (dead_desks t m1.agents) m1
      ∙ enter_session-pending t m
      ∙ z in
    rw e (
      bound-reconcile_desktops t flags _ m1 d
      ∙ ground (
        arith,
        bound-spawn_all t start m2 d w zero2,
        left_over t flags m1 d (enter_session-Unique t m u),
      ))

-- When a tick learns the lock flags, then whatever else Windows answers in it, no agent is bound
-- after it for a desktop that the flags do not ask for; if before it no desktop was twice in the
-- map.
pub reconcile_only_desired :
    (t : Tick) (flags : ℤ) (m : Monitor) (d : String)
    → Unique m.agents
    → session_lock_state t.query t.sess ≡ some flags
    → contains (desired_desktops flags) d ≡ false
    → bound (reconcile t m) d ≡ false
unfolding reconcile
reconcile_only_desired t flags m d u e unwanted =
    let m1 : Monitor = enter_session t m in
    let alive = alive_desks t m1.agents in
    let (stop, start) = plan_agents alive (desired_desktops flags) in
    let m2 : Monitor = stop_agents stop (stop_agents (dead_desks t m1.agents) m1) in
    rw e (
      bound-reconcile_desktops t flags _ m1 d
      ∙ ground (
        arith,
        bound-spawn_all_le t start m2 d,
        left_over t flags m1 d (enter_session-Unique t m u),
      ))
