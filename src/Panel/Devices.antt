-- ===== src/Panel/Devices.antt =====
-- server/ui_panel_windows.go with server/status.go: the devices that the panel lists.
use remote_mouse.Common.{
  ℕ, String, Bool, true, false, some, List, map, ◌≡◌, refl, ap, ◌∙◌, arith, All,
}
use remote_mouse.Common.Int.{ℤ}
use remote_mouse.Clients.{Client, ClientRegistry, snapshot}
use remote_mouse.DeviceTable.{count_text}
use remote_mouse.Serving.{Env, Controller, arbitrate, stop, want_standalone}
use remote_mouse.ServiceStatus.{
  service_running, service_state, service_start_type, query, answered, state_running,
}
use remote_mouse.Status.{TimeText, serve_status, query_status_pipe}
use remote_mouse.Status.Codec.{sent_client, HasText, decode-encode_clients}
use remote_mouse.Panel.{Panel, apply_panel_state}
use remote_mouse.Panel.Refresh.{refresh_launches_nothing}
use remote_mouse.Panel.Ticking.{Observed, tick}

module _ {ℓ} {S : Type ℓ} where
  arbitrate_stops :
      (new_injector : S) (e : Env) (c : Controller S)
      → (arbitrate new_injector true e c).running ≡ false
  unfolding arbitrate want_standalone stop
  arbitrate_stops new_injector e c = ground arith

  shown_items :
      (notifies : ℤ → ℤ → Bool) (state : String) (stype : ℕ) (installed : Bool)
      (devices : List Client) (p : Panel S)
      → let q = apply_panel_state notifies state stype installed devices p in
        (q.widgets.items ≡ devices) × (q.widgets.dev_count ≡ count_text devices)
  unfolding apply_panel_state
  shown_items notifies state stype installed devices p = (refl, refl)

  -- The service runs, the panel's query finds that out and reads the list that the service sends, and
  -- the time of each client has a JSON text that reads back as it. Then after a tick the panel's
  -- process does not serve, and the panel lists and counts exactly the devices of the service, in the
  -- service's order.
  pub panel_shows_service_devices :
      (new_injector : S) (e : Env) (notifies : ℤ → ℤ → Bool) (o : Observed) (p : Panel S)
      (tx : TimeText) (reg : ClientRegistry)
      → (query o.running).0 ≡ answered state_running
      → o.piped ≡ query_status_pipe tx (some (serve_status tx reg))
      → All (HasText tx) (snapshot reg)
      → let q = tick new_injector e notifies o p in
        (q.ctrl.running ≡ false)
        × ((q.widgets.items ≡ map sent_client (snapshot reg))
            × (q.widgets.dev_count ≡ count_text (map sent_client (snapshot reg))))
  unfolding tick service_running
  panel_shows_service_devices new_injector e notifies o p tx reg running piped texts =
      let sent : query_status_pipe tx (some (serve_status tx reg))
          ≡ some (map sent_client (snapshot reg)) =
        unfold query_status_pipe serve_status in decode-encode_clients tx (snapshot reg) texts in
      let stopped = arbitrate_stops new_injector e p.ctrl in
      let arbitrated : Panel S = record p { ctrl = arbitrate new_injector true e p.ctrl } in
      let (stype, installed) = (service_start_type o.start_type).0 in
      let kept =
        refresh_launches_nothing notifies (service_state o.state).0 stype installed
          (map sent_client (snapshot reg)) arbitrated in
      rw (running, stopped, piped ∙ sent)
        (
          ap (λ (c : Controller S). c.running) kept.2 ∙ stopped,
          shown_items notifies (service_state o.state).0 stype installed
              (map sent_client (snapshot reg)) arbitrated,
        )
