-- ===== src/Service/Stopping.antt =====
-- server/service_windows.go: stopService ends, and what its success means.
use remote_mouse.Common.{
  ℕ, zero, suc, ◌+◌, ◌*◌, ◌≤◌, ◌==◌, Bool, true, false, not, ◌&&◌, Option, none, some, ◌≡◌, refl,
  ap, arith, ltb, Bool-cases, inl, inr,
}
use remote_mouse.Service.{
  Manager, StopResult, out_of_polls, is_done, finish, stopped, stop_timeout, poll_interval,
  max_polls, reachable, poll, after_query, after_control, stop_service,
}

-- The manager tells the truth: a service that it reports as stopped does not run.
pub record ReportsState {ℓ} {M : Type ℓ} (mgr : Manager M) : Type ℓ where
  pub query_tells :
      (m : M) → (mgr.query m).1 ≡ some stopped → mgr.is_running (mgr.query m).0 ≡ false
  pub control_tells :
      (m : M)
      → (mgr.control_stop m).1 ≡ some stopped
      → mgr.is_running (mgr.control_stop m).0 ≡ false

abbrev pub is_cut_off : StopResult → Bool
is_cut_off out_of_polls = true
is_cut_off _ = false

false_true {ℓ} : {A : Type ℓ} → false ≡ true → A
false_true e = cc

finish_cut_off : (now st : ℕ) → stop_timeout ≤ now → is_cut_off (finish now st) ≡ false
finish_cut_off now st h = ground arith

module _ {ℓ} {M : Type ℓ} (mgr : Manager M) where
  after_query_ends :
      (go_on : ℕ → M → M × StopResult) (r : M × Option ℕ)
      → ((st : ℕ) (m : M) → is_cut_off (go_on st m).1 ≡ false)
      → is_cut_off (after_query mgr go_on r).1 ≡ false
  after_query_ends go_on (m, none) h = refl
  after_query_ends go_on (m, some st) h = h st m

  poll_ends :
      (late : ℕ → ℕ) (fuel now st : ℕ) (m : M)
      → stop_timeout ≤ now + poll_interval * fuel
      → is_cut_off (poll mgr late fuel now st m).1 ≡ false
  unfolding poll
  poll_ends late zero now st m h = finish_cut_off now st (omega arith)
  poll_ends late (suc fuel) now st m h =
      elim (Bool-cases (not (st == stopped) && ltb now stop_timeout)) [
        | inl go ↦ rw go (
            after_query_ends (λ st' m'. poll mgr late fuel (now + poll_interval + late fuel) st' m')
              (mgr.query m)
              (λ st' m'.
                poll_ends late fuel (now + poll_interval + late fuel) st' m' (omega arith)))
        | inr halt ↦ rw halt (ground arith)
      ]

  -- stopService always ends by an answer of its own, however long its rounds take and whatever the
  -- manager answers: it polls at most 34 times, which the fuel of the model allows.
  pub stop_service_ends : (late : ℕ → ℕ) (m : M) → is_cut_off (stop_service mgr late m).1 ≡ false
  unfolding stop_service
  stop_service_ends late m = elim (Bool-cases (reachable mgr m)) [
    | inl r ↦ rw r (after (mgr.control_stop m))
    | inr r ↦ rw r refl
  ]
    where
      after : (r : M × Option ℕ) → is_cut_off (after_control mgr late r).1 ≡ false
      after (m', none) = refl
      after (m', some st) = poll_ends late max_polls 0 st m' (omega arith)

  -- What is known of a state that a call has answered for.
  abbrev Told : M → ℕ → Type 0
  Told m st = st ≡ stopped → mgr.is_running m ≡ false

  abbrev Stops : M × StopResult → Type 0
  Stops r = is_done r.1 ≡ true → mgr.is_running r.0 ≡ false

  finish-Stops : (now st : ℕ) (m : M) → Told m st → Stops (m, finish now st)
  finish-Stops now st m t d = t (ground arith)

  after_query-Stops :
      (go_on : ℕ → M → M × StopResult) (r : M × Option ℕ)
      → (r.1 ≡ some stopped → mgr.is_running r.0 ≡ false)
      → ((st : ℕ) (m : M) → Told m st → Stops (go_on st m))
      → Stops (after_query mgr go_on r)
  after_query-Stops go_on (m, none) tells h d = cc
  after_query-Stops go_on (m, some st) tells h d = h st m (λ e. tells (ap some e)) d

  poll-Stops :
      (late : ℕ → ℕ) (fuel now st : ℕ) (m : M)
      → ReportsState mgr
      → Told m st
      → Stops (poll mgr late fuel now st m)
  unfolding poll
  poll-Stops late zero now st m v t = finish-Stops now st m t
  poll-Stops late (suc fuel) now st m v t =
      elim (Bool-cases (not (st == stopped) && ltb now stop_timeout)) [
        | inl go ↦ rw go (
            after_query-Stops
              (λ st' m'. poll mgr late fuel (now + poll_interval + late fuel) st' m') (mgr.query m)
              (v.query_tells m)
              (λ st' m'. poll-Stops late fuel (now + poll_interval + late fuel) st' m' v))
        | inr halt ↦ rw halt (finish-Stops now st m t)
      ]

  stop_service-Stops : (late : ℕ → ℕ) (m : M) → ReportsState mgr → Stops (stop_service mgr late m)
  unfolding stop_service
  stop_service-Stops late m v = elim (Bool-cases (reachable mgr m)) [
    | inl r ↦ rw r (after (mgr.control_stop m) (v.control_tells m))
    | inr r ↦ rw r (λ d. false_true d)
  ]
    where
      after :
          (r : M × Option ℕ)
          → (r.1 ≡ some stopped → mgr.is_running r.0 ≡ false)
          → Stops (after_control mgr late r)
      after (m', none) tells = λ e. cc
      after (m', some st) tells = poll-Stops late max_polls 0 st m' v (λ e. tells (ap some e))

  -- If stopService returns without an error, the service does not run, provided that the manager
  -- reports a service as stopped only if it does not run.
  pub stop_service_stops :
      (late : ℕ → ℕ) (m : M)
      → ReportsState mgr
      → is_done (stop_service mgr late m).1 ≡ true
      → mgr.is_running (stop_service mgr late m).0 ≡ false
  stop_service_stops late m v d = stop_service-Stops late m v d
