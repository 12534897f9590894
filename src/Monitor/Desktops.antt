-- ===== src/Monitor/Desktops.antt =====
-- server/service_windows.go: how stopping and spawning agents changes the set of desktops.
use remote_mouse.Common.{
  ℕ, ◌==◌, Bool, true, false, not, ◌||◌, ◌&&◌, some, List, [], ◌∷◌, ◌++◌, String, suc, ◌≡◌, refl,
  ◌∙◌, eq_refl, arith, Bool-cases, inl, inr, if◌then◌else◌, str_eq, eq_iff, keep_if,
}
use remote_mouse.Desktop.{TokenStrategy, contains, token_strategy_for}
use remote_mouse.Monitor.{
  Monitor, Tick, AgentProc, desks, stop_agent, stop_agents, spawn_one, spawn_all, dead_desks,
  alive_desks, proc_alive, remove_agent, accept_with_timeout,
}

-- An agent is bound for the desktop.
abbrev pub bound : Monitor → String → Bool
bound m d = contains (desks m.agents) d

desks-remove_agent :
    (l : List (String × AgentProc)) (x d : String)
    → contains (desks (remove_agent x l)) d ≡ (contains (desks l) d && not (str_eq x d))
unfolding remove_agent
desks-remove_agent [] x d = refl
desks-remove_agent ((e, ap) ∷ l) x d =
    ground (arith, eq_iff e x, eq_iff e d, eq_iff x d, desks-remove_agent l x d)

desks-append :
    (l r : List (String × AgentProc)) (d : String)
    → contains (desks (l ++ r)) d ≡ (contains (desks l) d || contains (desks r) d)
desks-append [] r d = refl
desks-append (x ∷ l) r d = ground (arith, desks-append l r d)

pub bound-stop_agents :
    (ds : List String) (m : Monitor) (d : String)
    → bound (stop_agents ds m) d ≡ (bound m d && not (contains ds d))
unfolding stop_agents stop_agent
bound-stop_agents [] m d = ground arith
bound-stop_agents (x ∷ ds) m d =
    ground (arith, bound-stop_agents ds (stop_agent x m) d, desks-remove_agent m.agents x d)

-- No desktop is twice in the map.
abbrev pub Unique : List (String × AgentProc) → Type 0
Unique [] = Unit
Unique ((d, ap) ∷ r) = (contains (desks r) d ≡ false) × Unique r

Unique-remove_agent :
    (l : List (String × AgentProc)) (x : String) → Unique l → Unique (remove_agent x l)
unfolding remove_agent
Unique-remove_agent [] x u = tt
Unique-remove_agent ((d, ap) ∷ l) x u =
    ground (arith, Unique-remove_agent l x u.1, desks-remove_agent l x d)

Unique-append :
    (l : List (String × AgentProc)) (d : String) (ap : AgentProc)
    → contains (desks l) d ≡ false
    → Unique l
    → Unique (l ++ (d, ap) ∷ [])
Unique-append [] d ap h u = (refl, tt)
Unique-append ((e, bp) ∷ l) d ap h u =
    ground (arith, Unique-append l d ap, desks-append l ((d, ap) ∷ []) e, eq_iff d e, eq_iff e d)

pub Unique-stop_agents :
    (ds : List String) (m : Monitor) → Unique m.agents → Unique (stop_agents ds m).agents
unfolding stop_agents stop_agent
Unique-stop_agents [] m u = u
Unique-stop_agents (x ∷ ds) m u =
    Unique-stop_agents ds (stop_agent x m) (Unique-remove_agent m.agents x u)

absent-keep_if :
    (p : String × AgentProc → Bool) (l : List (String × AgentProc)) (d : String)
    → contains (desks l) d ≡ false
    → contains (desks (keep_if p l)) d ≡ false
absent-keep_if p [] d h = refl
absent-keep_if p ((e, ap) ∷ l) d h = ground (arith, absent-keep_if p l d)

pub partition :
    (t : Tick) (l : List (String × AgentProc)) (d : String)
    → Unique l
    → (contains (desks l) d && not (contains (dead_desks t l) d)) ≡ contains (alive_desks t l) d
unfolding alive_desks dead_desks
partition t [] d u = refl
partition t ((e, ap) ∷ l) d u = ground (
  arith,
  partition t l d u.1,
  eq_iff e d,
  absent-keep_if (λ kv. proc_alive t kv.1.h) l d,
  absent-keep_if (λ kv. not (proc_alive t kv.1.h)) l d,
)

merge : (a b : Bool) → ((a && not b) || (if b then true else false)) ≡ (a || b)
merge true true = refl
merge true false = refl
merge false true = refl
merge false false = refl

or_false : (a : Bool) → a ≡ (a || false)
or_false true = refl
or_false false = refl

and_false : (a : Bool) → (a && false) ≡ false
and_false true = refl
and_false false = refl

-- The agent that is spawned now connects to this call of Accept.
abbrev pub succeeds : Tick → ℕ → String → Bool
succeeds t pending desk =
    (t.has_token (token_strategy_for desk) && t.spawns desk)
    && (t.connects desk && (pending == 0 || t.newest_wins pending))

abbrev bound_agents : String → Monitor → List (String × AgentProc)
bound_agents x m =
    remove_agent x m.agents ++ (x, record { h = m.os.next; conn = some (suc m.os.next) }) ∷ []

agents-spawn_one :
    (t : Tick) (m : Monitor) (x : String)
    → (spawn_one t m x).agents ≡ (if succeeds t m.os.pending x then bound_agents x m else m.agents)
unfolding spawn_one accept_with_timeout
agents-spawn_one t m x = ground arith

bound-spawn_one :
    (t : Tick) (m : Monitor) (x d : String)
    → bound (spawn_one t m x) d ≡ (bound m d || (succeeds t m.os.pending x && str_eq x d))
bound-spawn_one t m x d =
    rw (agents-spawn_one t m x) (elim (Bool-cases (succeeds t m.os.pending x)) [
      | inl q ↦ rw q (
          desks-append (remove_agent x m.agents) _ d
          ∙ rw (desks-remove_agent m.agents x d) (merge (contains (desks m.agents) d) (str_eq x d)))
      | inr q ↦ rw q (or_false (contains (desks m.agents) d))
    ])

pub Unique-spawn_one :
    (t : Tick) (m : Monitor) (x : String) → Unique m.agents → Unique (spawn_one t m x).agents
Unique-spawn_one t m x u =
    rw (agents-spawn_one t m x) (elim (Bool-cases (succeeds t m.os.pending x)) [
      | inl q ↦ rw q (
          Unique-append (remove_agent x m.agents) x _
            (desks-remove_agent m.agents x x
              ∙ rw (eq_refl x) (and_false (contains (desks m.agents) x)))
            (Unique-remove_agent m.agents x u))
      | inr q ↦ rw q u
    ])

-- Every spawn of the tick works out.
pub record AllWork (t : Tick) : Type 0 where
  pub tokens : (s : TokenStrategy) → t.has_token s ≡ true
  pub created : (d : String) → t.spawns d ≡ true
  pub connected : (d : String) → t.connects d ≡ true

pending-spawn_one :
    (t : Tick) (m : Monitor) (x : String) → AllWork t → (spawn_one t m x).os.pending ≡ m.os.pending
unfolding spawn_one accept_with_timeout
pending-spawn_one t m x w = ground (arith, w.connected x)

pub bound-spawn_all :
    (t : Tick) (ds : List String) (m : Monitor) (d : String)
    → AllWork t
    → m.os.pending ≡ 0
    → bound (spawn_all t ds m) d ≡ (bound m d || contains ds d)
unfolding spawn_all
bound-spawn_all t [] m d w z = or_false (bound m d)
bound-spawn_all t (x ∷ ds) m d w z =
    let m' : Monitor = spawn_one t m x in
    let now = bound-spawn_one t m x d in
    let works : succeeds t m.os.pending x ≡ true =
      ground (arith, w.tokens (token_strategy_for x), w.created x, w.connected x) in
    ground (arith, bound-spawn_all t ds m' d w (pending-spawn_one t m x w ∙ z), now, works)

pub bound-spawn_all_le :
    (t : Tick) (ds : List String) (m : Monitor) (d : String)
    → (bound (spawn_all t ds m) d && not (bound m d || contains ds d)) ≡ false
unfolding spawn_all
bound-spawn_all_le t [] m d = ground arith
bound-spawn_all_le t (x ∷ ds) m d =
    ground (arith, bound-spawn_all_le t ds (spawn_one t m x) d, bound-spawn_one t m x d)
