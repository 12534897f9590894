-- ===== src/Serving/Arbiter.antt =====
-- server/serving_windows.go and the ticks of server/ui_panel_windows.go: the port follows the service.
use remote_mouse.Common.{true, false, [], ◌∷◌, ◌≡◌, ◌⊎◌, arith}
use remote_mouse.Serving.{Env, Controller, start, stop, want_standalone, arbitrate, announce}
use remote_mouse.Serving.Invariant.{IsConsistent, Ports, start-IsConsistent, stop-IsConsistent}

module _ {ℓ} {S : Type ℓ} where
  stop_stops : (c : Controller S) → (stop c).running ≡ false
  unfolding stop
  stop_stops c = ground arith

  start_runs :
      (n : S) (e : Env) (c : Controller S)
      → (c.running ≡ true) ⊎ (e.can_listen c.cfg.port ≡ true)
      → ((start n e c).0.running ≡ true) × ((start n e c).1 ≡ true) × ((start n e c).0.cfg ≡ c.cfg)
  unfolding start announce
  start_runs n e c h = ground arith

  -- Where a consistent controller runs already or the port of its config can be bound: after a tick
  -- of the arbiter the process holds no port if the service runs, and if it does not, the process
  -- listens on and accepts from exactly the port of its config.
  pub arbitrate_follows_service :
      (new_injector : S) (e : Env) (c : Controller S)
      → IsConsistent c
      → (c.running ≡ true) ⊎ (e.can_listen c.cfg.port ≡ true)
      → (Ports [] (arbitrate new_injector true e c).net
          × ((arbitrate new_injector true e c).running ≡ false))
        × Ports (c.cfg.port ∷ []) (arbitrate new_injector false e c).net
  unfolding arbitrate want_standalone
  arbitrate_follows_service n e c v h =
      let runs = start_runs n e c h in
      let up = (start-IsConsistent n e c v).up runs.0 in
      ((((stop-IsConsistent c v).down (stop_stops c)).1, stop_stops c), rw runs.2 at up.1)
