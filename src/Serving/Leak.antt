-- ===== src/Serving/Leak.antt =====
-- server/serving_windows.go: what a failed change of the port leaves behind.
use remote_mouse.Common.{true, false, none, some, [], ◌∷◌, ◌≡◌, refl, ◌∙◌}
use remote_mouse.Common.Int.{eq_int}
use remote_mouse.Config.{ServerConfig}
use remote_mouse.Serving.{
  Announcement, Env, Controller, listen_on, serve_on, announce, start, apply, rebind, roll_back,
  needs_rebind, close_listener, reconfigure,
}
use remote_mouse.Serving.Announce.{close_listener-announced}

module _ {ℓ} {S : Type ℓ} where
  -- A controller that lost both ports.
  abbrev stranded : ServerConfig → Controller S → Controller S
  stranded nc c = record c {
    cfg = nc;
    srv = reconfigure nc c.srv;
    ln = none;
    running = false;
    net = close_listener c.ln c.net;
  }

  apply_fails :
      (e : Env) (nc : ServerConfig) (c : Controller S)
      → c.running ≡ true
      → eq_int c.cfg.port nc.port ≡ false
      → e.can_listen nc.port ≡ false
      → e.can_listen c.cfg.port ≡ false
      → apply e nc c ≡ stranded nc c
  unfolding apply rebind roll_back needs_rebind
  apply_fails e nc c on differs no_new no_old = rw (on, differs, no_new, no_old)

  start_beside :
      (n : S) (f : Env) (d : Controller S) (a : Announcement)
      → d.running ≡ false
      → d.net.announced ≡ a ∷ []
      → f.can_listen d.cfg.port ≡ true
      → f.can_announce ≡ true
      → let r = (start n f d).0 in
        (b : Announcement) × (r.zc ≡ some b) × (r.net.announced ≡ b ∷ a ∷ [])
  unfolding start announce listen_on serve_on
  start_beside n f d a off only yes_new yes_announce = (
    record { id = d.net.next_id; name = d.cfg.name; port = d.cfg.port },
    rw (off, yes_new, yes_announce),
    rw (off, yes_new, yes_announce, only),
  )

  -- When a running controller that advertises itself is moved to another port and can bind neither
  -- that port nor the old one, it stops and holds no listener, but its zeroconf server still runs;
  -- and if a later Start binds and announces, that server runs beside the new one, and the
  -- controller holds only the new one.
  pub failed_apply_leaks_announcement :
      (new_injector : S) (e f : Env) (nc : ServerConfig) (c : Controller S) (a : Announcement)
      → c.running ≡ true
      → c.zc ≡ some a
      → c.net.announced ≡ a ∷ []
      → eq_int c.cfg.port nc.port ≡ false
      → e.can_listen nc.port ≡ false
      → e.can_listen c.cfg.port ≡ false
      → f.can_listen nc.port ≡ true
      → f.can_announce ≡ true
      → let d = apply e nc c in
        let r = (start new_injector f d).0 in
        ((d.running ≡ false) × (d.ln ≡ none) × (d.net.announced ≡ a ∷ []))
        × ((b : Announcement) × (r.zc ≡ some b) × (r.net.announced ≡ b ∷ a ∷ []))
  failed_apply_leaks_announcement n e f nc c a on z only differs no_new no_old yes_new
        yes_announce =
      let failed = apply_fails e nc c on differs no_new no_old in
      let kept : (close_listener c.ln c.net).announced ≡ a ∷ [] =
        close_listener-announced c.ln c.net ∙ only in
      rw failed
        ((refl, refl, kept), start_beside n f (stranded nc c) a refl kept yes_new yes_announce)
