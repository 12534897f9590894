-- ===== src/Serving.antt =====
-- server/serving_windows.go: the controller that serves from the UI process while the service does
-- not run. Its lock makes each method one step. What the network does in one step is an
-- environment: which ports can be bound and whether mDNS registration succeeds.
pub mod Invariant
pub mod Announce
pub mod Leak
pub mod Arbiter
mod Examples
use remote_mouse.Common.{
  ℕ, suc, ◌==◌, String, Bool, true, false, not, ◌||◌, Option, none, some, List, [], ◌∷◌,
  if◌then◌else◌, str_eq, keep_if,
}
use remote_mouse.Common.Int.{ℤ, eq_int}
use remote_mouse.Clients.{ClientRegistry}
use remote_mouse.Config.{ServerConfig}
use remote_mouse.Server.{Server, set_password, set_name}

unfoldable pub want_standalone : Bool → Bool
want_standalone service_running = not service_running

unfoldable pub needs_rebind : ServerConfig → ServerConfig → Bool
needs_rebind old new = not (eq_int old.port new.port)

unfoldable pub needs_reannounce : ServerConfig → ServerConfig → Bool
needs_reannounce old new = not (eq_int old.port new.port) || not (str_eq old.name new.name)

-- A zeroconf server: the name and port that it advertises, and a number that tells it apart.
pub record Announcement : Type 0 where
  pub id : ℕ
  pub name : String
  pub port : ℤ

-- What the process holds of the network: the ports that it listens on, those whose listener a
-- goroutine of `Serve` accepts from, and the zeroconf servers that run.
pub record Network : Type 0 where
  pub listening : List ℤ
  pub accepting : List ℤ
  pub announced : List Announcement
  pub next_id : ℕ

pub record Env : Type 0 where
  pub can_listen : ℤ → Bool
  pub can_announce : Bool

-- `ln` is the port of the listener. `srv`, `inj`, `ln` and `zc` may be nil.
pub record Controller {ℓ} (S : Type ℓ) : Type ℓ where
  pub cfg : ServerConfig
  pub reg : Option ClientRegistry
  pub srv : Option (Server S)
  pub inj : Option S
  pub ln : Option ℤ
  pub zc : Option Announcement
  pub running : Bool
  pub net : Network

unfoldable pub close_port : ℤ → Network → Network
close_port p n = record n {
  listening = keep_if (λ q. not (eq_int p q)) n.listening;
  accepting = keep_if (λ q. not (eq_int p q)) n.accepting;
}

unfoldable pub listen_on : ℤ → Network → Network
listen_on p n = record n { listening = p ∷ n.listening }

unfoldable pub serve_on : ℤ → Network → Network
serve_on p n = record n { accepting = p ∷ n.accepting }

unfoldable pub shutdown : Announcement → Network → Network
shutdown a n = record n { announced = keep_if (λ b. not (a.id == b.id)) n.announced }

abbrev pub empty_network : Network
empty_network = record { listening = []; accepting = []; announced = []; next_id = 0 }

abbrev pub close_listener : Option ℤ → Network → Network
close_listener none n = n
close_listener (some p) n = close_port p n

abbrev pub shutdown_announcement : Option Announcement → Network → Network
shutdown_announcement none n = n
shutdown_announcement (some a) n = shutdown a n

module _ {ℓ} {S : Type ℓ} where
  unfoldable pub new_serving_controller : ServerConfig → Option ClientRegistry → Controller S
  new_serving_controller cfg reg = record {
    cfg = cfg;
    reg = reg;
    srv = none;
    inj = none;
    ln = none;
    zc = none;
    running = false;
    net = empty_network;
  }

  -- c.zc = announceMDNS(c.announceCfg(), c.devID)
  unfoldable pub announce : Env → Controller S → Controller S
  announce e c =
      let a : Announcement = record { id = c.net.next_id; name = c.cfg.name; port = c.cfg.port } in
      if e.can_announce
      then record c {
        zc = some a;
        net = record c.net { announced = a ∷ c.net.announced; next_id = suc c.net.next_id };
      }
      else record c { zc = none }

  abbrev pub or_new : S → Option S → S
  or_new new none = new
  or_new new (some inj) = inj

  -- A new server, or the old one with the password and the name of the config.
  abbrev pub configured : ServerConfig → Option ClientRegistry → S → Option (Server S) → Server S
  configured cfg reg inj none = record {
    password = cfg.password;
    name = cfg.name;
    inj = inj;
    reg = reg;
  }
  configured cfg reg inj (some s) = set_name cfg.name (set_password cfg.password s)

  -- The result says whether the error is nil. `new_injector` is what newInjector() returns.
  unfoldable pub start : S → Env → Controller S → Controller S × Bool
  start new_injector e c =
      let inj = or_new new_injector c.inj in
      let ready : Controller S = record c {
        inj = some inj;
        srv = some (configured c.cfg c.reg inj c.srv);
      } in
      let bound : Controller S = record ready {
        ln = some c.cfg.port;
        net = listen_on c.cfg.port c.net;
      } in
      let announced : Controller S = announce e bound in
      if c.running
      then (c, true)
      else if e.can_listen c.cfg.port
      then (record announced { net = serve_on c.cfg.port announced.net; running = true }, true)
      else (ready, false)

  unfoldable pub stop : Controller S → Controller S
  stop c =
      if c.running
      then record c {
        zc = none;
        ln = none;
        running = false;
        net = close_listener c.ln (shutdown_announcement c.zc c.net);
      }
      else c

  -- c.srv.SetPassword and SetName; `srv` is not nil while the controller runs.
  abbrev pub reconfigure : ServerConfig → Option (Server S) → Option (Server S)
  reconfigure cfg none = none
  reconfigure cfg (some s) = some (set_name cfg.name (set_password cfg.password s))

  abbrev pub rename : String → Option (Server S) → Option (Server S)
  rename n none = none
  rename n (some s) = some (set_name n s)

  -- The new port could not be bound: open the old one again, or stop.
  unfoldable pub roll_back : Env → ServerConfig → Controller S → Controller S
  roll_back e old c =
      let reopened : ServerConfig = record c.cfg { port = old.port; name = old.name } in
      if e.can_listen old.port
      then record c {
        ln = some old.port;
        cfg = reopened;
        srv = rename old.name c.srv;
        net = serve_on old.port (listen_on old.port c.net);
      }
      else record c { ln = none; running = false }

  unfoldable pub reannounce : Env → ServerConfig → Controller S → Controller S
  reannounce e old c =
      let quiet : Controller S = record c { net = shutdown_announcement c.zc c.net } in
      if needs_reannounce old c.cfg then announce e quiet else c

  -- `c` holds the new config already.
  unfoldable pub rebind : Env → ServerConfig → Controller S → Controller S
  rebind e old c =
      let free : Controller S = record c { net = close_listener c.ln c.net } in
      let bound : Controller S = record free {
        ln = some c.cfg.port;
        net = serve_on c.cfg.port (listen_on c.cfg.port free.net);
      } in
      if needs_rebind old c.cfg
      then (if e.can_listen c.cfg.port then reannounce e old bound else roll_back e old free)
      else reannounce e old c

  unfoldable pub apply : Env → ServerConfig → Controller S → Controller S
  apply e nc c =
      let recorded : Controller S = record c { cfg = nc } in
      if c.running
      then rebind e c.cfg (record recorded { srv = reconfigure nc c.srv })
      else recorded

-- The calls that the UI process makes.
pub data Operation : Type 0 where
  starts : Env → Operation
  stops : Operation
  applies : Env → ServerConfig → Operation

module _ {ℓ} {S : Type ℓ} (new_injector : S) where
  unfoldable pub step : Controller S → Operation → Controller S
  step c (starts e) = (start new_injector e c).0
  step c stops = stop c
  step c (applies e cfg) = apply e cfg c

  unfoldable pub run : Controller S → List Operation → Controller S
  run c [] = c
  run c (o ∷ os) = run (step c o) os

  -- One tick of the panel or of the headless loop: own the port just if the service does not run.
  unfoldable pub arbitrate : Bool → Env → Controller S → Controller S
  arbitrate service_running e c =
      if want_standalone service_running then (start new_injector e c).0 else stop c
