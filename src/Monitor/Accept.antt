-- ===== src/Monitor/Accept.antt =====
-- server/service_windows.go: what a call of Accept that acceptWithTimeout gave up on does to the
-- agents that are spawned later.
use remote_mouse.Common.{
  ℕ, suc, ◌==◌, Bool, true, false, not, Option, none, some, List, [], ◌∷◌, String, All, ◌≡◌, refl,
  ◌∙◌, arith, ap, zero,
}
use remote_mouse.Common.Int.{ℤ}
use remote_mouse.Desktop.{contains, session_lock_state, desired_desktops, plan_agents}
use remote_mouse.Monitor.{
  Monitor, Tick, desks, stop_agents, spawn_one, spawn_all, dead_desks, alive_desks,
  accept_with_timeout, enter_session, reconcile_desktops, reconcile_with, reconcile, rebind_writers,
  kill_all,
}
use remote_mouse.Monitor.Desktops.{bound, bound-stop_agents}
use remote_mouse.Monitor.Reconcile.{
  pending-stop_agents, enter_session-pending, bound-reconcile_desktops,
}

-- The calls of Accept get the connections in the order in which they were made.
abbrev pub IsFirstComeFirstServed : Tick → Type 0
IsFirstComeFirstServed t = (n : ℕ) → t.newest_wins (suc n) ≡ false

abbrev pub reconcile_all : List Tick → Monitor → Monitor
reconcile_all [] m = m
reconcile_all (t ∷ ts) m = reconcile_all ts (reconcile t m)

-- An earlier call of Accept still waits.
abbrev pub waits : Monitor → Bool
waits m = not (m.os.pending == 0)

-- A process that is created now is not bound: either it does not connect, or its connection goes to
-- the call that waits, and this call waits in its turn.
spawn_one-waits :
    (t : Tick) (m : Monitor) (x : String) (n : ℕ)
    → IsFirstComeFirstServed t
    → m.os.pending ≡ suc n
    → ((spawn_one t m x).agents ≡ m.agents) × (waits (spawn_one t m x) ≡ true)
unfolding spawn_one accept_with_timeout
spawn_one-waits t m x n f e =
    let late : t.newest_wins m.os.pending ≡ false = rw e (f n) in ground (arith, late)

waits_suc : (p : ℕ) → not (p == 0) ≡ true → (n : ℕ) × (p ≡ suc n)
waits_suc zero w = cc
waits_suc (suc n) w = (n, refl)

spawn_all-waits :
    (t : Tick) (ds : List String) (m : Monitor)
    → IsFirstComeFirstServed t
    → waits m ≡ true
    → ((spawn_all t ds m).agents ≡ m.agents) × (waits (spawn_all t ds m) ≡ true)
unfolding spawn_all
spawn_all-waits t [] m f w = (refl, w)
spawn_all-waits t (x ∷ ds) m f w =
    let (n, e) = waits_suc m.os.pending w in
    let one = spawn_one-waits t m x n f e in
    let rest = spawn_all-waits t ds (spawn_one t m x) f one.1 in (rest.0 ∙ one.0, rest.1)

waits-reconcile_desktops :
    (t : Tick) (flags : ℤ) (b : Bool) (m : Monitor)
    → let (stop, start) = plan_agents (alive_desks t m.agents) (desired_desktops flags) in
      waits (reconcile_desktops t flags b m)
      ≡ waits (spawn_all t start (stop_agents stop (stop_agents (dead_desks t m.agents) m)))
unfolding reconcile_desktops rebind_writers
waits-reconcile_desktops t flags b m = ground arith

enter_session-bound :
    (t : Tick) (m : Monitor) (d : String) → bound m d ≡ false → bound (enter_session t m) d ≡ false
unfolding kill_all
enter_session-bound t m d h = ground arith

reconcile_with-waits :
    (t : Tick) (o : Option ℤ) (m : Monitor) (d : String)
    → IsFirstComeFirstServed t
    → waits m ≡ true
    → bound m d ≡ false
    → (bound (reconcile_with t o m) d ≡ false) × (waits (reconcile_with t o m) ≡ true)
reconcile_with-waits t none m d f w h = (h, w)
reconcile_with-waits t (some flags) m d f w h =
    let m1 : Monitor = enter_session t m in
    let (stop, start) = plan_agents (alive_desks t m1.agents) (desired_desktops flags) in
    let dead = dead_desks t m1.agents in
    let m0 : Monitor = stop_agents dead m1 in
    let m2 : Monitor = stop_agents stop m0 in
    let same : m2.os.pending ≡ m.os.pending =
      pending-stop_agents stop m0 ∙ pending-stop_agents dead m1 ∙ enter_session-pending t m in
    let w2 : waits m2 ≡ true = rw same w in
    let gone : bound m2 d ≡ false = ground (
      arith,
      bound-stop_agents stop m0 d,
      bound-stop_agents dead m1 d,
      enter_session-bound t m d h,
    ) in
    let all = spawn_all-waits t start m2 f w2 in
    (
      bound-reconcile_desktops t flags _ m1 d ∙ ap (λ l. contains (desks l) d) all.0 ∙ gone,
      waits-reconcile_desktops t flags _ m1 ∙ all.1,
    )

-- Once a call of Accept that acceptWithTimeout gave up on still waits, and if waiting calls get the
-- connections in the order in which they were made, no later tick binds an agent for a desktop that
-- has none, whatever else Windows answers and however often the monitor tries.
pub late_accept_starves_monitor :
    (ts : List Tick) (m : Monitor) (d : String)
    → All IsFirstComeFirstServed ts
    → waits m ≡ true
    → bound m d ≡ false
    → bound (reconcile_all ts m) d ≡ false
unfolding reconcile
late_accept_starves_monitor [] m d f w h = h
late_accept_starves_monitor (t ∷ ts) m d f w h =
    let one = reconcile_with-waits t (session_lock_state t.query t.sess) m d f.0 w h in
    late_accept_starves_monitor ts (reconcile t m) d f.1 one.1 one.0
