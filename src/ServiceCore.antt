-- ===== src/ServiceCore.antt =====
-- server/service_windows.go: the service as the service control manager sees it (Execute), what its
-- core sets up and takes down (runServiceCore), and the listener that waits for its port
-- (listenTCPRetry). The agent monitor that the core runs until the stop is Monitor's.
mod Control
mod Listening
mod Examples
use remote_mouse.Common.{
  ℕ, zero, suc, ◌+◌, Bool, true, false, not, ◌&&◌, Option, none, some, List, [], ◌∷◌, ◌++◌,
  if◌then◌else◌, ltb,
}
use remote_mouse.Config.{AppConfig, Values}
use remote_mouse.ServiceStatus.{with_stored}

-- A request of the manager; `interrogate` brings the status that the manager has.
pub data Request : Type 0 where
  interrogate : ℕ → Request
  stop shutdown other : Request

pub data Status : Type 0 where
  start_pending running stop_pending : Status
  current : ℕ → Status

-- The loop over the requests: the statuses that it reports, and whether it closed the stop channel.
unfoldable pub serve_requests : List Request → List Status × Bool
serve_requests [] = ([], false)
serve_requests (interrogate s ∷ rs) =
    let (statuses, stopped) = serve_requests rs in (current s ∷ statuses, stopped)
serve_requests (stop ∷ rs) = (stop_pending ∷ [], true)
serve_requests (shutdown ∷ rs) = (stop_pending ∷ [], true)
serve_requests (other ∷ rs) = serve_requests rs

unfoldable pub execute : List Request → List Status × Bool
unfolding serve_requests
execute rs =
    let (statuses, stopped) = serve_requests rs in (start_pending ∷ running ∷ statuses, stopped)

-- Listening on the port, with a deadline `within` milliseconds after the start. `free t` tells whether
-- the port can be bound at the time t. In the round that is left with n more, `took n` is the time from
-- the attempt to the reading of the clock, and `late n` the time, beyond the sleep, from there to the
-- next attempt. The result is the time at which the port was bound.
abbrev pub retry_sleep : ℕ
retry_sleep = 200

pub data Listened : Type 0 where
  bound : ℕ → Listened
  gave_up out_of_fuel : Listened

unfoldable pub listen_retry : (ℕ → Bool) → (ℕ → ℕ) → (ℕ → ℕ) → ℕ → ℕ → ℕ → Listened
listen_retry free took late within zero now = out_of_fuel
listen_retry free took late within (suc fuel) now =
    let read = now + took fuel in
    let again = listen_retry free took late within fuel (read + retry_sleep + late fuel) in
    if free now then bound now else if ltb within read then gave_up else again

-- Rounds that last longer than five seconds.
abbrev pub retry_rounds : ℕ
retry_rounds = 27

unfoldable pub listen_tcp_retry : (ℕ → Bool) → (ℕ → ℕ) → (ℕ → ℕ) → Listened
unfolding listen_retry
listen_tcp_retry free took late = listen_retry free took late 5000 retry_rounds (late retry_rounds)

-- What the core starts and ends, in the order of its code; the control port is bound and served by a
-- goroutine of its own.
pub data CoreEvent : Type 0 where
  privileges_enabled pipe_listens status_served tcp_started announced : CoreEvent
  monitor_ran announcement_shut pipe_closed pipe_failed : CoreEvent

-- `pipe_ok` and `announce_ok`: does the inject pipe listen, and does the announcement succeed. A pipe
-- that cannot listen ends the process.
unfoldable pub run_service_core :
    AppConfig → Option Values → Bool → Bool → AppConfig × List CoreEvent
unfolding with_stored
run_service_core cfg root pipe_ok announce_ok =
    let config = with_stored root cfg in
    if not pipe_ok
    then (config, privileges_enabled ∷ pipe_failed ∷ [])
    else if announce_ok
    then (
      config,
      privileges_enabled ∷ pipe_listens ∷ status_served ∷ tcp_started ∷ announced ∷ monitor_ran
          ∷ announcement_shut ∷ pipe_closed ∷ [],
    )
    else (
      config,
      privileges_enabled ∷ pipe_listens ∷ status_served ∷ tcp_started ∷ monitor_ran ∷ pipe_closed
          ∷ [],
    )
