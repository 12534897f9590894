-- ===== src/Serving/Examples.antt =====
-- Tests and instances for server/serving_windows.go.
use remote_mouse.Common.{true, false, none, some, List, [], ◌∷◌, ◌≡◌, inl, inr, refl}
use remote_mouse.Common.Int.{pos, eq_int}
use remote_mouse.Config.{ServerConfig}
use remote_mouse.Serving.{
  Announcement, Env, Controller, Operation, starts, stops, applies, new_serving_controller, start,
  apply, step, run, arbitrate, announce, listen_on, serve_on, close_port, needs_rebind, rebind,
  roll_back,
}
use remote_mouse.Serving.Invariant.{IsConsistent, Ports, run-IsConsistent}
use remote_mouse.Serving.Announce.{IsAdvertised, run-IsAdvertised}
use remote_mouse.Serving.Leak.{failed_apply_leaks_announcement}
use remote_mouse.Serving.Arbiter.{arbitrate_follows_service}

abbrev home : ServerConfig
home = record { password = "1234"; port = pos 27500; name = "PC" }

abbrev moved : ServerConfig
moved = record { password = "9"; port = pos 5; name = "Den" }

abbrev free_ports : Env
free_ports = record { can_listen = λ p. true; can_announce = true }

abbrev only_home : Env
only_home = record { can_listen = λ p. eq_int p (pos 27500); can_announce = true }

abbrev no_ports : Env
no_ports = record { can_listen = λ p. false; can_announce = true }

fresh : Controller (Unit {0})
fresh = new_serving_controller home none

fresh-IsConsistent : IsConsistent fresh
unfolding fresh new_serving_controller
fresh-IsConsistent = record { up = λ h. cc; down = λ _. (refl, (refl, refl)) }

fresh-IsAdvertised : IsAdvertised fresh
unfolding fresh new_serving_controller
fresh-IsAdvertised = record { only = refl; matches = λ h. cc; off = λ _. refl }

abbrev evening : List Operation
evening = starts free_ports ∷ applies only_home moved ∷ stops ∷ []

-- The new port is taken: the old port, name and announcement stay, and the new password counts.
run-rolled_back :
    let c = run tt fresh (starts free_ports ∷ applies only_home moved ∷ []) in
    (c.cfg ≡ record { password = "9"; port = pos 27500; name = "PC" })
    × (c.net.listening ≡ pos 27500 ∷ [])
    × (c.zc ≡ some (record { id = 0; name = "PC"; port = pos 27500 }))
unfolding fresh new_serving_controller run step start announce listen_on serve_on apply rebind
    needs_rebind roll_back close_port
run-rolled_back = (refl, refl, refl)

run-IsConsistent_example : IsConsistent (run tt fresh evening)
run-IsConsistent_example = run-IsConsistent tt fresh evening fresh-IsConsistent

run-IsAdvertised_example : IsAdvertised (run tt fresh evening)
unfolding fresh new_serving_controller step start announce
run-IsAdvertised_example = run-IsAdvertised tt fresh evening (inl refl, tt) fresh-IsAdvertised

serving : Controller (Unit {0})
unfolding fresh new_serving_controller start announce listen_on serve_on
serving = (start tt free_ports fresh).0

failed_apply_leaks_announcement_example :
    let a : Announcement = record { id = 0; name = "PC"; port = pos 27500 } in
    let d = apply no_ports moved serving in
    let r = (start tt free_ports d).0 in
    ((d.running ≡ false) × (d.ln ≡ none) × (d.net.announced ≡ a ∷ []))
    × ((b : Announcement) × (r.zc ≡ some b) × (r.net.announced ≡ b ∷ a ∷ []))
unfolding serving
failed_apply_leaks_announcement_example =
    failed_apply_leaks_announcement tt no_ports free_ports moved serving
      (record { id = 0; name = "PC"; port = pos 27500 }) refl refl refl refl refl refl refl refl

arbitrate_follows_service_example :
    (Ports [] (arbitrate tt true free_ports fresh).net
      × ((arbitrate tt true free_ports fresh).running ≡ false))
    × Ports (fresh.cfg.port ∷ []) (arbitrate tt false free_ports fresh).net
arbitrate_follows_service_example =
    arbitrate_follows_service tt free_ports fresh fresh-IsConsistent (inr refl)
