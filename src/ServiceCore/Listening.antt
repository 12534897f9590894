-- ===== src/ServiceCore/Listening.antt =====
-- server/service_windows.go: the listener that waits for its port.
use remote_mouse.Common.{
  ℕ, zero, suc, ◌+◌, ◌*◌, ◌≤◌, ◌<◌, Bool, true, false, ◌≡◌, refl, arith, Bool-cases, inl, inr, ltb,
  if◌then◌else◌,
}
use remote_mouse.ServiceCore.{
  listen_retry, listen_tcp_retry, Listened, bound, gave_up, out_of_fuel, retry_sleep, retry_rounds,
}

-- How a wait ends: bound at a time at which the port was free, or given up when an attempt has failed
-- and the clock, which is read after it, is past the deadline.
abbrev pub Ends : (ℕ → Bool) → (ℕ → ℕ) → ℕ → Listened → Type 0
Ends free took within (bound t) = free t ≡ true
Ends free took within gave_up = (t : ℕ) × (n : ℕ) × (free t ≡ false) × (within < t + took n)
Ends free took within out_of_fuel = ⊥

give_up_or_wait :
    (free : ℕ → Bool) (took : ℕ → ℕ) (within now n : ℕ) (again : Listened)
    → ((now + took n ≤ within) → Ends free took within again)
    → Ends free took within
        (if free now then bound now else if ltb within (now + took n) then gave_up else again)
give_up_or_wait free took within now n again h = elim (Bool-cases (free now)) [
  | inl f ↦ rw f f
  | inr b ↦ elim (Bool-cases (ltb within (now + took n))) [
    | inl late ↦ rw (b, late) (now, n, b, ground arith)
    | inr early ↦ rw (b, early) (h (ground arith))
  ]
]

retry-Ends :
    (free : ℕ → Bool) (took late : ℕ → ℕ) (within fuel now : ℕ)
    → within < now + retry_sleep * fuel
    → Ends free took within (listen_retry free took late within (suc fuel) now)
unfolding listen_retry
retry-Ends free took late within zero now h =
    give_up_or_wait free took within now zero out_of_fuel (λ early. absurd (omega arith))
retry-Ends free took late within (suc fuel) now h =
    let next = now + took (suc fuel) + retry_sleep + late (suc fuel) in
    give_up_or_wait free took within now (suc fuel)
      (listen_retry free took late within (suc fuel) next)
      (λ early. retry-Ends free took late within fuel next (omega arith))

stays_free :
    (free : ℕ → Bool) (took : ℕ → ℕ) (within from most : ℕ) (l : Listened)
    → Ends free took within l
    → ((n : ℕ) → took n ≤ most)
    → from + most ≤ within
    → ((t : ℕ) → from ≤ t → free t ≡ true)
    → (t : ℕ) × (l ≡ bound t)
stays_free free took within from most (bound t) e quick h f = (t, refl)
stays_free free took within from most out_of_fuel e quick h f = absurd e
stays_free free took within from most gave_up (t, n, busy, past) quick h f =
    let open_then : free t ≡ true = f t (omega (arith, quick n)) in absurd (cc)

-- However long the rounds take, the wait ends within its 27 rounds: with the port bound at a time at
-- which it was free; or given up, when an attempt has failed at a time at which the port was not free
-- and the clock, read some time after that attempt, is past five seconds. If the clock is always read
-- within `most` milliseconds of the attempt, and the port is free from some time on that is at least
-- that long before the five seconds are over, then it is bound.
pub listen_retry-Ends :
    (free : ℕ → Bool) (took late : ℕ → ℕ)
    → Ends free took 5000 (listen_tcp_retry free took late)
      × ((from most : ℕ)
          → ((n : ℕ) → took n ≤ most)
          → from + most ≤ 5000
          → ((t : ℕ) → from ≤ t → free t ≡ true)
          → (t : ℕ) × (listen_tcp_retry free took late ≡ bound t))
unfolding listen_tcp_retry
listen_retry-Ends free took late =
    let ends = retry-Ends free took late 5000 26 (late retry_rounds) (omega arith) in
    (
      ends,
      λ from most quick h f.
          stays_free free took 5000 from most (listen_tcp_retry free took late) ends quick h f,
    )
