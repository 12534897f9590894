-- ===== src/Monitor/Writers.antt =====
-- server/service_windows.go: the pipe injector writes to the agents that are bound, and to no other.
use remote_mouse.Common.{
  ◌==◌, Bool, false, not, ◌||◌, Option, none, some, List, [], ◌∷◌, ◌≡◌, refl, arith, Bool-cases,
  inl, inr,
}
use remote_mouse.Common.Int.{ℤ}
use remote_mouse.Desktop.{session_lock_state, desired_desktops, plan_agents}
use remote_mouse.Monitor.{
  Monitor, Tick, conns_of, fan_out, rebind_writers, stop_agents, spawn_all, dead_desks, alive_desks,
  is_empty, reconcile_desktops, reconcile_with, enter_session, reconcile, kill_all,
}

-- The writer is a fan-out over the connections of the bound agents, or nil if there is none.
abbrev pub IsBound : Monitor → Type 0
IsBound m = m.writer ≡ fan_out (conns_of m.agents)

empty_of {ℓ} : {A : Type ℓ} (l : List A) → not (is_empty l) ≡ false → l ≡ []
empty_of [] h = refl
empty_of (x ∷ l) h = cc

reconcile_desktops-IsBound :
    (t : Tick) (flags : ℤ) (b : Bool) (m : Monitor)
    → IsBound m
    → IsBound (reconcile_desktops t flags b m)
unfolding reconcile_desktops rebind_writers
reconcile_desktops-IsBound t flags b m h =
    let dead = dead_desks t m.agents in
    let (stop, start) = plan_agents (alive_desks t m.agents) (desired_desktops flags) in
    elim (Bool-cases (b || not (is_empty dead) || not (is_empty stop) || not (is_empty start))) [
      | inl q ↦ rw q refl
      | inr q ↦
          let e0 : dead ≡ [] = empty_of dead (ground arith) in
          let e1 : stop ≡ [] = empty_of stop (ground arith) in
          let e2 : start ≡ [] = empty_of start (ground arith) in
          rw q (rw (e0, e1, e2) (unfold stop_agents spawn_all in h))
    ]

kill_all-IsBound : (m : Monitor) → IsBound (kill_all m)
unfolding kill_all
kill_all-IsBound m = refl

enter_session-IsBound : (t : Tick) (m : Monitor) → IsBound m → IsBound (enter_session t m)
enter_session-IsBound t m h = elim (Bool-cases (t.sess == m.cur_sess)) [
  | inl q ↦ rw q h
  | inr q ↦ rw q (kill_all-IsBound m)
]

-- Every tick, whatever Windows answers in it, leaves the pipe injector writing to exactly the
-- connections of the agents that are bound after it, and to nil if there is none; if it did so
-- before.
pub reconcile-IsBound : (t : Tick) (m : Monitor) → IsBound m → IsBound (reconcile t m)
unfolding reconcile
reconcile-IsBound t m h = go (session_lock_state t.query t.sess)
  where
    go : (o : Option ℤ) → IsBound (reconcile_with t o m)
    go none = h
    go (some flags) =
        reconcile_desktops-IsBound t flags _ (enter_session t m) (enter_session-IsBound t m h)
