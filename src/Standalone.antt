-- ===== src/Standalone.antt =====
-- server/serve.go (serveStandalone) with Listen of server/server.go, and server/injector_other.go: the
-- program that serves by itself. `main` waits in runUI while a goroutine listens; when runUI returns
-- the deferred calls run, one after the other, while the goroutine may still call log.Fatal and a
-- signal may still end the process.
mod Always
pub mod Ending
mod Examples
use remote_mouse.Common.{
  ℕ, suc, String, Bool, true, false, not, ◌&&◌, Option, none, some, List, [], ◌∷◌, if◌then◌else◌,
}
use remote_mouse.Common.Int.{ℤ, pos}
use remote_mouse.Config.{AppConfig}
use remote_mouse.Inject.{Injector}
use remote_mouse.Clients.{new_client_registry}
use remote_mouse.Server.{Server}
use remote_mouse.Serving.{
  Env, Network, Announcement, empty_network, listen_on, serve_on, close_port, shutdown_announcement,
}

-- The injector of the platforms that have none; it only writes to the log.
abbrev pub stub_injector {ℓ} : {S : Type ℓ} → Injector S
stub_injector = record {
  move_rel = λ dx dy s. s;
  move_abs = λ x y s. s;
  button = λ b d s. s;
  scroll = λ dx dy s. s;
  text = λ t s. s;
  key = λ c m d s. s;
  close = λ s. s;
}

abbrev pub stub_screen_size : ℤ × ℤ
stub_screen_size = (pos 0, pos 0)

-- Where `main` stands: in runUI, before the deferred Shutdown, before the deferred Close, or after it.
pub data Stage : Type 0 where
  in_ui shutting closing leaving : Stage

-- How the process stands: it runs, `main` has returned, log.Fatal or a signal has ended it.
pub data Life : Type 0 where
  alive exited fatal signalled : Life

-- `announced` of the network holds what no shutdown has withdrawn; `window` tells whether runUI shows
-- a window, and waits forever if it does not; `serving`, whether the goroutine is in the loop of Serve.
pub record Program {ℓ} (S : Type ℓ) : Type ℓ where
  pub srv : Server S
  pub port : ℤ
  pub zc : Option Announcement
  pub net : Network
  pub window : Bool
  pub serving : Bool
  pub stage : Stage
  pub life : Life

-- announceMDNS on a network on which nothing is announced yet.
abbrev pub announce_mdns : Env → String → ℤ → Network → Network × Option Announcement
announce_mdns e name port n =
    let a : Announcement = record { id = n.next_id; name = name; port = port } in
    if e.can_announce
    then (record n { announced = a ∷ n.announced; next_id = suc n.next_id }, some a)
    else (n, none)

-- What happens next: the goroutine calls net.Listen, Accept fails, `main` gets one call further, or a
-- signal comes that nothing handles.
pub data Happening : Type 0 where
  listens : Env → Happening
  accept_fails : Happening
  main_goes_on : Happening
  signal : Happening

module _ {ℓ} {S : Type ℓ} where
  -- Up to the call of runUI. `shows` tells whether the platform's runUI can show a window.
  unfoldable pub serve_standalone : Env → Bool → S → AppConfig → Program S
  serve_standalone e shows new_injector cfg =
      let (net, zc) = announce_mdns e cfg.name cfg.port empty_network in
      record {
        srv = record {
          password = cfg.pass;
          name = cfg.name;
          inj = new_injector;
          reg = some new_client_registry;
        };
        port = cfg.port;
        zc = zc;
        net = net;
        window = shows && not cfg.notray;
        serving = false;
        stage = in_ui;
        life = alive;
      }

  -- The process ends, and with it its listener.
  unfoldable pub end_process : Life → Program S → Program S
  end_process l p = record p { net = close_port p.port p.net; life = l }

  -- Listen up to the loop of Serve; an error ends the process at once.
  unfoldable pub listen : Env → Program S → Program S
  unfolding end_process
  listen e p =
      if p.serving
      then p
      else if e.can_listen p.port
      then record p { net = serve_on p.port (listen_on p.port p.net); serving = true }
      else end_process fatal p

  -- The loop of Serve ends with an error, which Listen returns.
  unfoldable pub accept_error : Program S → Program S
  unfolding end_process
  accept_error p = if p.serving then end_process fatal p else p

module _ {ℓ} {S : Type ℓ} (injector : Injector S) where
  -- runUI returns, if it shows a window that the user can quit; then the deferred calls, the last one
  -- first; then `main` returns.
  abbrev pub main_step_at : Stage → Program S → Program S
  main_step_at in_ui p = if p.window then record p { stage = shutting } else p
  main_step_at shutting p = record p { net = shutdown_announcement p.zc p.net; stage = closing }
  main_step_at closing p = record p {
    srv = record p.srv { inj = injector.close p.srv.inj };
    stage = leaving;
  }
  main_step_at leaving p = end_process exited p

  unfoldable pub main_step : Program S → Program S
  unfolding end_process
  main_step p = main_step_at p.stage p

  abbrev pub happen : Happening → Program S → Program S
  happen (listens e) p = listen e p
  happen accept_fails p = accept_error p
  happen main_goes_on p = main_step p
  happen signal p = end_process signalled p

  -- Nothing happens in a process that has ended.
  abbrev pub step_in : Life → Happening → Program S → Program S
  step_in alive h p = happen h p
  step_in exited h p = p
  step_in fatal h p = p
  step_in signalled h p = p

  unfoldable pub step : Happening → Program S → Program S
  step h p = step_in p.life h p

  unfoldable pub run : List Happening → Program S → Program S
  run [] p = p
  run (h ∷ hs) p = run hs (step h p)
