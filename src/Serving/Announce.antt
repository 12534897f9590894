-- ===== src/Serving/Announce.antt =====
-- server/serving_windows.go: what is advertised over mDNS.
use remote_mouse.Common.{
  true, false, Option, none, some, List, [], ◌∷◌, ◌≡◌, refl, arith, Bool-cases, inl, inr, ◌⊎◌,
  eq_iff, sym, ◌∙◌,
}
use remote_mouse.Common.Int.{ℤ}
use remote_mouse.Config.{ServerConfig}
use remote_mouse.Serving.{
  Network, Announcement, Env, Controller, close_port, listen_on, serve_on, shutdown, announce,
  start, stop, apply, rebind, reannounce, roll_back, needs_rebind, needs_reannounce, close_listener,
  shutdown_announcement, Operation, starts, stops, applies, step, run, reconfigure,
}
use remote_mouse.Serving.Invariant.{eq_int_sound, true_not_false}

abbrev pub Only : Option Announcement → Network → Type 0
Only none n = n.announced ≡ []
Only (some a) n = n.announced ≡ a ∷ []

abbrev pub Matches : Option Announcement → ServerConfig → Type 0
Matches none cfg = Unit
Matches (some a) cfg = (a.name ≡ cfg.name) × (a.port ≡ cfg.port)

-- At most one zeroconf server runs, the one that the controller knows. It advertises the name and
-- the port of the config, and none runs when the controller does not.
pub record IsAdvertised {ℓ} {S : Type ℓ} (c : Controller S) : Type 0 where
  pub only : Only c.zc c.net
  pub matches : c.running ≡ true → Matches c.zc c.cfg
  pub off : c.running ≡ false → c.zc ≡ none

pub close_listener-announced :
    (ln : Option ℤ) (n : Network) → (close_listener ln n).announced ≡ n.announced
unfolding close_port
close_listener-announced none n = refl
close_listener-announced (some p) n = refl

shutdown-Only :
    (zc : Option Announcement) (n : Network)
    → Only zc n
    → (shutdown_announcement zc n).announced ≡ []
unfolding shutdown
shutdown-Only none n h = h
shutdown-Only (some a) n h = rw h (ground arith)

off_empty : (zc : Option Announcement) (n : Network) → zc ≡ none → Only zc n → n.announced ≡ []
off_empty none n e h = h
off_empty (some a) n e h = cc

Matches-same :
    (zc : Option Announcement) (old new : ServerConfig)
    → needs_reannounce old new ≡ false
    → Matches zc old
    → Matches zc new
unfolding needs_reannounce
Matches-same none old new q m = tt
Matches-same (some a) old new q m =
    ground (arith, eq_iff old.name new.name, eq_int_sound old.port new.port)

Only-same :
    (zc : Option Announcement) (n p : Network) → p.announced ≡ n.announced → Only zc n → Only zc p
Only-same none n p e h = e ∙ h
Only-same (some a) n p e h = e ∙ h

Matches-restored :
    (zc : Option Announcement) (old new : ServerConfig)
    → Matches zc old
    → Matches zc (record new { port = old.port; name = old.name })
Matches-restored none old new m = tt
Matches-restored (some a) old new m = m

module _ {ℓ} {S : Type ℓ} where
  announce-IsAdvertised :
      (e : Env) (c : Controller S)
      → c.running ≡ true
      → c.net.announced ≡ []
      → IsAdvertised (announce e c)
  unfolding announce
  announce-IsAdvertised e c on h = ground arith

  start-IsAdvertised :
      (new_injector : S) (e : Env) (c : Controller S)
      → IsAdvertised c
      → IsAdvertised (start new_injector e c).0
  unfolding start listen_on serve_on announce
  start-IsAdvertised new_injector e c v = elim (Bool-cases c.running) [
    | inl on ↦ simp on v
    | inr off ↦ ground (arith, off_empty c.zc c.net (v.off off) v.only)
  ]

  stop-IsAdvertised : (c : Controller S) → IsAdvertised c → IsAdvertised (stop c)
  unfolding stop
  stop-IsAdvertised c v = elim (Bool-cases c.running) [
    | inl on ↦ simp on (record {
      only = close_listener-announced c.ln _ ∙ shutdown-Only c.zc c.net v.only;
      matches = λ h. cc;
      off = λ _. refl;
    })
    | inr off ↦ simp off v
  ]

  reannounce-IsAdvertised :
      (e : Env) (old : ServerConfig) (c : Controller S)
      → c.running ≡ true
      → Only c.zc c.net
      → Matches c.zc old
      → IsAdvertised (reannounce e old c)
  unfolding reannounce
  reannounce-IsAdvertised e old c on h m = elim (Bool-cases (needs_reannounce old c.cfg)) [
    | inl q ↦ rw q (announce-IsAdvertised e _ on (shutdown-Only c.zc c.net h))
    | inr q ↦ rw q (record {
      only = h;
      matches = λ _. Matches-same c.zc old c.cfg q m;
      off = λ f. absurd (true_not_false (sym on ∙ f));
    })
  ]

  -- One of the two ports can be bound.
  rebind-IsAdvertised :
      (e : Env) (old : ServerConfig) (c : Controller S)
      → (e.can_listen old.port ≡ true) ⊎ (e.can_listen c.cfg.port ≡ true)
      → c.running ≡ true
      → Only c.zc c.net
      → Matches c.zc old
      → IsAdvertised (rebind e old c)
  unfolding rebind listen_on serve_on roll_back
  rebind-IsAdvertised e old c some_port on h m = elim (Bool-cases (needs_rebind old c.cfg)) [
    | inr q ↦ rw q (reannounce-IsAdvertised e old c on h m)
    | inl q ↦
        let free : Network = close_listener c.ln c.net in
        let only_free = Only-same c.zc c.net free (close_listener-announced c.ln c.net) h in
        rw q (elim (Bool-cases (e.can_listen c.cfg.port)) [
          | inl new_ok ↦
              rw new_ok
                (reannounce-IsAdvertised e old _ on (Only-same c.zc free _ refl only_free) m)
          | inr new_no ↦
              let old_ok : e.can_listen old.port ≡ true = ground arith in
              rw (new_no, old_ok)
                (record {
                  only = Only-same c.zc free _ refl only_free;
                  matches = λ _. Matches-restored c.zc old c.cfg m;
                  off = λ f. absurd (true_not_false (sym on ∙ f));
                })
        ])
  ]

  apply-IsAdvertised :
      (e : Env) (nc : ServerConfig) (c : Controller S)
      → (e.can_listen c.cfg.port ≡ true) ⊎ (e.can_listen nc.port ≡ true)
      → IsAdvertised c
      → IsAdvertised (apply e nc c)
  unfolding apply
  apply-IsAdvertised e nc c some_port v = elim (Bool-cases c.running) [
    | inl on ↦
        let live : Controller S = record c {
          cfg = nc;
          srv = reconfigure nc c.srv;
          running = true;
        } in
        simp on (rebind-IsAdvertised e c.cfg live some_port refl v.only (v.matches on))
    | inr off ↦ simp off (record { only = v.only; matches = λ f. cc; off = λ _. v.off off })
  ]

  -- Calls in which an Apply can always bind the old port or the new one.
  abbrev pub AlwaysBinds : S → Controller S → List Operation → Type 0
  AlwaysBinds n c [] = Unit
  AlwaysBinds n c (starts e ∷ os) = AlwaysBinds n (step n c (starts e)) os
  AlwaysBinds n c (stops ∷ os) = AlwaysBinds n (step n c stops) os
  AlwaysBinds n c (applies e nc ∷ os) =
      ((e.can_listen c.cfg.port ≡ true) ⊎ (e.can_listen nc.port ≡ true))
      × AlwaysBinds n (step n c (applies e nc)) os

  -- After any calls of Start, Stop and Apply in which no Apply fails to bind both the new port and
  -- the old one: at most one zeroconf server runs, it is the one that the controller holds, it
  -- advertises the name and port of the config, and none runs once the controller has stopped; if
  -- this holds at the start.
  pub run-IsAdvertised :
      (new_injector : S) (c : Controller S) (os : List Operation)
      → AlwaysBinds new_injector c os
      → IsAdvertised c
      → IsAdvertised (run new_injector c os)
  unfolding run step
  run-IsAdvertised n c [] b v = v
  run-IsAdvertised n c (starts e ∷ os) b v =
      run-IsAdvertised n (step n c (starts e)) os b (start-IsAdvertised n e c v)
  run-IsAdvertised n c (stops ∷ os) b v =
      run-IsAdvertised n (step n c stops) os b (stop-IsAdvertised c v)
  run-IsAdvertised n c (applies e nc ∷ os) b v =
      run-IsAdvertised n (step n c (applies e nc)) os b.1 (apply-IsAdvertised e nc c b.0 v)
