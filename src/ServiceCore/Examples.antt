-- ===== src/ServiceCore/Examples.antt =====
-- Instances and tests for the core of the service.
use remote_mouse.Common.{
  ℕ, ◌+◌, ◌==◌, if◌then◌else◌, ◌≤◌, Bool, true, false, List, [], ◌∷◌, ◌++◌, ◌≡◌, refl, leb,
}
use remote_mouse.ServiceCore.{
  Request, interrogate, other, stop, start_pending, running, current, stop_pending, execute,
  serve_requests, listen_tcp_retry, bound, gave_up,
}
use remote_mouse.ServiceCore.Listening.{Ends, listen_retry-Ends}

-- The panel lets the port go after 1.5 seconds.
abbrev let_go : ℕ → Bool
let_go now = leb 1500 now

abbrev prompt : ℕ → ℕ
prompt n = 1

abbrev at_once : ℕ → ℕ
at_once n = 0

takes_over : listen_tcp_retry let_go at_once prompt ≡ bound 1609
unfolding listen_tcp_retry
takes_over = refl

never_free : listen_tcp_retry (λ now. false) at_once prompt ≡ gave_up
unfolding listen_tcp_retry
never_free = refl

-- The last attempt fails at 4.8 seconds, and the clock is read after the deadline.
slow_clock : ℕ → ℕ
slow_clock n = if n == 2 then 300 else 0

freed_too_late : listen_tcp_retry (λ now. leb 4850 now) slow_clock at_once ≡ gave_up
unfolding listen_tcp_retry slow_clock
freed_too_late = refl

listen_retry-Ends_example :
    Ends let_go prompt 5000 (listen_tcp_retry let_go prompt prompt)
    × ((from most : ℕ)
        → ((n : ℕ) → prompt n ≤ most)
        → from + most ≤ 5000
        → ((t : ℕ) → from ≤ t → let_go t ≡ true)
        → (t : ℕ) × (listen_tcp_retry let_go prompt prompt ≡ bound t))
listen_retry-Ends_example = listen_retry-Ends let_go prompt prompt

abbrev asked : List Request
asked = interrogate 4 ∷ other ∷ interrogate 4 ∷ []

stops_asked :
    execute (asked ++ stop ∷ other ∷ [])
    ≡ (start_pending ∷ running ∷ current 4 ∷ current 4 ∷ stop_pending ∷ [], true)
unfolding execute serve_requests
stops_asked = refl
