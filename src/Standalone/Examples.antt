-- ===== src/Standalone/Examples.antt =====
-- Tests and instances for the standalone program.
use remote_mouse.Common.{ℕ, suc, true, false, not, ◌&&◌, List, [], ◌∷◌, ◌≡◌, ◌≢◌, refl, ◌⊎◌}
use remote_mouse.Common.Int.{pos}
use remote_mouse.Common.Texts.{chars}
use remote_mouse.Config.{AppConfig}
use remote_mouse.Flags.{flag_defaults}
use remote_mouse.Inject.{Injector}
use remote_mouse.Serving.{Env, listen_on, serve_on, shutdown, close_port}
use remote_mouse.Standalone.{
  in_ui, shutting, closing, leaving, alive, exited, fatal, signalled, Happening, listens,
  accept_fails, main_goes_on, signal, stub_injector, serve_standalone, run, step, listen,
  accept_error, main_step, end_process,
}
use remote_mouse.Standalone.Ending.{fatal_leaves_announcement}

-- Its state counts the calls of Close.
abbrev counting : Injector ℕ
counting = record stub_injector { close = λ n. suc n }

abbrev all_works : Env
all_works = record { can_listen = λ p. true; can_announce = true }

abbrev port_taken : Env
port_taken = record { can_listen = λ p. false; can_announce = true }

abbrev cfg : AppConfig
cfg = record (flag_defaults (chars "PC")) { name = "PC"; pass = "1234"; port = pos 27500 }

-- The user quits from the tray.
closed_by_user :
    let p =
      run counting
        (listens all_works
          ∷ main_goes_on
          ∷ main_goes_on
          ∷ main_goes_on
          ∷ main_goes_on
          ∷ signal
          ∷ [])
        (serve_standalone all_works true 0 cfg) in
    (p.life ≡ exited) × (p.net.announced ≡ []) × (p.srv.inj ≡ 1)
unfolding run step serve_standalone listen main_step end_process listen_on serve_on shutdown
    close_port flag_defaults
closed_by_user = (refl, refl, refl)

-- Another program holds the port.
abbrev taken : List Happening
taken = listens port_taken ∷ main_goes_on ∷ []

killed :
    let p = run counting taken (serve_standalone all_works true 0 cfg) in
    (p.life ≡ fatal) × (p.net.announced ≡ record { id = 0; name = "PC"; port = pos 27500 } ∷ [])
unfolding run step serve_standalone listen main_step end_process close_port flag_defaults
killed = (refl, refl)

-- Without a window, runUI waits until a signal comes.
interrupted :
    let p =
      run counting
        (listens all_works ∷ main_goes_on ∷ main_goes_on ∷ signal ∷ [])
        (serve_standalone all_works false 0 cfg) in
    (p.life ≡ signalled) × (p.net.announced ≡ record { id = 0; name = "PC"; port = pos 27500 } ∷ [])
unfolding run step serve_standalone listen main_step end_process listen_on serve_on close_port
    flag_defaults
interrupted = (refl, refl)

-- The listener ends between the two deferred calls.
between :
    let p =
      run counting
        (listens all_works ∷ main_goes_on ∷ main_goes_on ∷ accept_fails ∷ main_goes_on ∷ [])
        (serve_standalone all_works true 0 cfg) in
    (p.life ≡ fatal) × (p.net.announced ≡ []) × (p.srv.inj ≡ 0)
unfolding run step serve_standalone listen accept_error main_step end_process listen_on serve_on
    shutdown close_port flag_defaults
between = (refl, refl, refl)

fatal_leaves_announcement_example :
    let p = run counting taken (serve_standalone all_works true 0 cfg) in
    ((((p.stage ≡ in_ui) ⊎ (p.stage ≡ shutting))
        × (p.net.announced ≡ record { id = 0; name = cfg.name; port = cfg.port } ∷ [])
        × (p.srv.inj ≡ 0)
        × (p.life ≢ exited))
      ⊎ (((true && not cfg.notray) ≡ true)
          × (p.net.announced ≡ [])
          × (((p.stage ≡ closing) × (p.srv.inj ≡ 0) × (p.life ≢ exited))
              ⊎ ((p.stage ≡ leaving) × (p.srv.inj ≡ 1)))))
    × ((p.life ≡ alive) ⊎ ((p.net.listening ≡ []) × (run counting (signal ∷ []) p ≡ p)))
fatal_leaves_announcement_example =
    fatal_leaves_announcement counting all_works true 0 cfg taken (signal ∷ []) refl
