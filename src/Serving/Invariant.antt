-- ===== src/Serving/Invariant.antt =====
-- server/serving_windows.go: which port is served, and with which password and name.
use remote_mouse.Common.{
  true, false, Option, none, some, List, [], ◌∷◌, ◌≡◌, refl, arith, Bool-cases, inl, inr, sym, ◌∙◌,
  ap, subst,
}
use remote_mouse.Common.Int.{ℤ, eq_int}
use remote_mouse.Clients.{ClientRegistry}
use remote_mouse.Config.{ServerConfig}
use remote_mouse.Server.{Server, set_password, set_name}
use remote_mouse.Serving.{
  Network, Env, Controller, close_port, listen_on, serve_on, shutdown, announce, start, stop, apply,
  rebind, reannounce, roll_back, needs_rebind, close_listener, shutdown_announcement, configured,
  or_new, rename, reconfigure, Operation, starts, stops, applies, step, run,
}

-- The server authenticates with the password of the config and shows its name.
abbrev pub Uses {ℓ} : {S : Type ℓ} → ServerConfig → Option (Server S) → Type 0
Uses cfg none = ⊥
Uses cfg (some s) = (s.password ≡ cfg.password) × (s.name ≡ cfg.name)

abbrev pub Ports : List ℤ → Network → Type 0
Ports ps n = (n.listening ≡ ps) × (n.accepting ≡ ps)

pub true_not_false : true ≡ false → ⊥
true_not_false e = cc

pub eq_int_refl : (z : ℤ) → eq_int z z ≡ true
eq_int_refl z = ground arith

pub eq_int_sound : (a b : ℤ) → eq_int a b ≡ true → a ≡ b
eq_int_sound a b h = ground arith

close_only : (p : ℤ) (n : Network) → Ports (p ∷ []) n → Ports [] (close_port p n)
unfolding close_port
close_only p n h = rw (h.0, h.1) (rw (eq_int_refl p) (refl, refl))

close_listener-Ports :
    (ln : Option ℤ) (p : ℤ) (n : Network)
    → ln ≡ some p
    → Ports (p ∷ []) n
    → Ports [] (close_listener ln n)
close_listener-Ports ln p n e h = rw e (close_only p n h)

shutdown-Ports :
    (zc : _) (ps : List ℤ) (n : Network) → Ports ps n → Ports ps (shutdown_announcement zc n)
unfolding shutdown
shutdown-Ports none ps n h = h
shutdown-Ports (some a) ps n h = h

module _ {ℓ} {S : Type ℓ} where
  -- A controller that runs serves exactly the port of its config, by its config; one that does not
  -- holds no port.
  pub record IsConsistent (c : Controller S) : Type 0 where
    pub up :
        c.running ≡ true
        → (c.ln ≡ some c.cfg.port) × Ports (c.cfg.port ∷ []) c.net × Uses c.cfg c.srv
    pub down : c.running ≡ false → (c.ln ≡ none) × Ports [] c.net

  configured-Uses :
      (cfg : ServerConfig) (reg : Option ClientRegistry) (inj : S) (srv : Option (Server S))
      → Uses cfg (some (configured cfg reg inj srv))
  unfolding set_password set_name
  configured-Uses cfg reg inj none = (refl, refl)
  configured-Uses cfg reg inj (some s) = (refl, refl)

  -- What announcing leaves alone.
  announce-rest :
      (e : Env) (c : Controller S)
      → let d = announce e c in
        (d.cfg ≡ c.cfg)
        × (d.srv ≡ c.srv)
        × (d.ln ≡ c.ln)
        × (d.running ≡ c.running)
        × (d.net.listening ≡ c.net.listening)
        × (d.net.accepting ≡ c.net.accepting)
  unfolding announce
  announce-rest e c = ground arith

  pub start-IsConsistent :
      (new_injector : S) (e : Env) (c : Controller S)
      → IsConsistent c
      → IsConsistent (start new_injector e c).0
  unfolding start listen_on serve_on announce
  start-IsConsistent new_injector e c v = record {
    up =
        ground (arith, configured-Uses c.cfg c.reg (or_new new_injector c.inj) c.srv, v.up, v.down);
    down = ground (arith, v.up, v.down);
  }

  pub stop-IsConsistent : (c : Controller S) → IsConsistent c → IsConsistent (stop c)
  unfolding stop
  stop-IsConsistent c v = elim (Bool-cases c.running) [
    | inl on ↦
        let was = v.up on in
        let p : ℤ = c.cfg.port in
        rw on (record {
          up = λ h. cc;
          down = λ _. (
            refl,
            close_listener-Ports c.ln p _ was.0 (shutdown-Ports c.zc (p ∷ []) c.net was.1),
          );
        })
    | inr off ↦ simp off v
  ]

  -- Running, with the server on the config, and with these ports.
  abbrev Live : List ℤ → Controller S → Type 0
  Live ps c = (c.running ≡ true) × Uses c.cfg c.srv × Ports ps c.net

  reannounce-IsConsistent :
      (e : Env) (old : ServerConfig) (c : Controller S)
      → c.ln ≡ some c.cfg.port
      → Live (c.cfg.port ∷ []) c
      → IsConsistent (reannounce e old c)
  unfolding reannounce announce shutdown
  reannounce-IsConsistent e old c l h = record { up = ground arith; down = ground arith }

  rename-Uses :
      (cfg old : ServerConfig) (srv : Option (Server S))
      → Uses cfg srv
      → Uses (record cfg { port = old.port; name = old.name }) (rename old.name srv)
  unfolding set_name
  rename-Uses cfg old none h = h
  rename-Uses cfg old (some s) h = (h.0, refl)

  roll_back-IsConsistent :
      (e : Env) (old : ServerConfig) (c : Controller S)
      → Live [] c
      → IsConsistent (roll_back e old c)
  unfolding roll_back listen_on serve_on
  roll_back-IsConsistent e old c h = elim (Bool-cases (e.can_listen old.port)) [
    | inl q ↦ rw q (record {
      up = λ _. (refl, (rw h.2.0 refl, rw h.2.1 refl), rename-Uses c.cfg old c.srv h.1);
      down = λ f. absurd (true_not_false (sym h.0 ∙ f));
    })
    | inr q ↦ rw q (record { up = λ f. cc; down = λ _. (refl, h.2) })
  ]

  rebind-IsConsistent :
      (e : Env) (old : ServerConfig) (c : Controller S)
      → c.ln ≡ some old.port
      → Live (old.port ∷ []) c
      → IsConsistent (rebind e old c)
  unfolding rebind needs_rebind listen_on serve_on
  rebind-IsConsistent e old c l h = elim (Bool-cases (eq_int old.port c.cfg.port)) [
    | inl same ↦
        let q : old.port ≡ c.cfg.port = eq_int_sound _ _ same in
        rw same (
          reannounce-IsConsistent e old c (l ∙ ap some q)
            (h.0, h.1, subst (λ p. Ports (p ∷ []) c.net) q h.2))
    | inr differs ↦
        let free = close_listener-Ports c.ln old.port c.net l h.2 in
        rw differs (elim (Bool-cases (e.can_listen c.cfg.port)) [
          | inl q ↦ rw q (
              reannounce-IsConsistent e old _ refl
                (h.0, h.1, (ap (λ ps. c.cfg.port ∷ ps) free.0, ap (λ ps. c.cfg.port ∷ ps) free.1)))
          | inr q ↦ rw q (roll_back-IsConsistent e old _ (h.0, h.1, free))
        ])
  ]

  reconfigure-Uses :
      (cfg nc : ServerConfig) (srv : Option (Server S))
      → Uses cfg srv
      → Uses nc (reconfigure nc srv)
  unfolding set_password set_name
  reconfigure-Uses cfg nc none h = h
  reconfigure-Uses cfg nc (some s) h = (refl, refl)

  apply-IsConsistent :
      (e : Env) (nc : ServerConfig) (c : Controller S)
      → IsConsistent c
      → IsConsistent (apply e nc c)
  unfolding apply
  apply-IsConsistent e nc c v = elim (Bool-cases c.running) [
    | inl on ↦
        let was = v.up on in
        let live : Controller S = record c {
          cfg = nc;
          srv = reconfigure nc c.srv;
          running = true;
        } in
        simp on (
          rebind-IsConsistent e c.cfg live was.0
            (refl, reconfigure-Uses c.cfg nc c.srv was.2, was.1))
    | inr off ↦ rw off (record { up = λ f. cc; down = λ _. v.down off })
  ]

  step-IsConsistent :
      (new_injector : S) (c : Controller S) (o : Operation)
      → IsConsistent c
      → IsConsistent (step new_injector c o)
  unfolding step
  step-IsConsistent n c (starts e) v = start-IsConsistent n e c v
  step-IsConsistent n c stops v = stop-IsConsistent c v
  step-IsConsistent n c (applies e cfg) v = apply-IsConsistent e cfg c v

  -- After any calls of Start, Stop and Apply, in any order and whatever ports could be bound: a
  -- controller that runs listens on and accepts from exactly the port of its config, and its server
  -- uses the password and the name of its config; one that does not run holds no port; if this
  -- holds at the start.
  pub run-IsConsistent :
      (new_injector : S) (c : Controller S) (os : List Operation)
      → IsConsistent c
      → IsConsistent (run new_injector c os)
  unfolding run
  run-IsConsistent n c [] v = v
  run-IsConsistent n c (o ∷ os) v = run-IsConsistent n (step n c o) os (step-IsConsistent n c o v)
