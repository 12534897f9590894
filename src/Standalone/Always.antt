-- ===== src/Standalone/Always.antt =====
-- server/serve.go: what holds of the standalone program at all times.
use remote_mouse.Common.{
  ◌≢◌, ℕ, ◌==◌, Bool, true, false, Option, none, some, List, [], ◌∷◌, if◌then◌else◌, ◌≡◌, refl, sym,
  ap, ◌∙◌, arith, inl, inr, ◌⊎◌,
}
use remote_mouse.Common.Int.{ℤ}
use remote_mouse.Inject.{Injector}
use remote_mouse.Serving.{
  Env, Network, Announcement, listen_on, serve_on, close_port, shutdown, shutdown_announcement,
}
use remote_mouse.Serving.Invariant.{eq_int_refl}
use remote_mouse.Standalone.{
  Stage, in_ui, shutting, closing, leaving, Life, alive, exited, fatal, signalled, Program,
  Happening, listens, accept_fails, main_goes_on, signal, end_process, listen, accept_error,
  main_step_at, main_step, happen, step_in, step, run,
}

abbrev pub announced_as : Option Announcement → List Announcement
announced_as none = []
announced_as (some a) = a ∷ []

abbrev pub ports : Bool → ℤ → List ℤ
ports false p = []
ports true p = p ∷ []

eq_refl : (n : ℕ) → (n == n) ≡ true
eq_refl n = ground arith

shutdown-listening :
    (zc : Option Announcement) (n : Network) → (shutdown_announcement zc n).listening ≡ n.listening
unfolding shutdown
shutdown-listening none n = refl
shutdown-listening (some a) n = refl

shutdown-announced_as :
    (zc : Option Announcement) (n : Network)
    → n.announced ≡ announced_as zc
    → (shutdown_announcement zc n).announced ≡ []
unfolding shutdown
shutdown-announced_as none n h = h
shutdown-announced_as (some a) n h = rw h (rw (eq_refl a.id) refl)

close_port-ports :
    (b : Bool) (p : ℤ) (n : Network) → n.listening ≡ ports b p → (close_port p n).listening ≡ []
unfolding close_port
close_port-ports false p n h = rw h refl
close_port-ports true p n h = rw h (rw (eq_int_refl p) refl)

-- A process that `main` has returned from has made its deferred calls.
abbrev pub Settled : Life → Stage → Type 0
Settled exited x = x ≡ leaving
Settled _ x = Unit

Settled-alive : (l : Life) (x : Stage) → l ≡ alive → Settled l x
Settled-alive alive x e = tt
Settled-alive exited x e = cc
Settled-alive fatal x e = tt
Settled-alive signalled x e = tt

pub past_ui : (w : Bool) (x y : Stage) → (x ≡ in_ui) ⊎ (w ≡ true) → x ≡ y → y ≢ in_ui → w ≡ true
past_ui w x y (inl e) h out = absurd (out (sym h ∙ e))
past_ui w x y (inr e) h out = e

module _ {ℓ} {S : Type ℓ} (injector : Injector S) (zc : Option Announcement) (w : Bool)
    (new : S) where
  -- What is still announced, and the state of the injector, by where `main` stands.
  abbrev pub ads : Stage → List Announcement
  ads in_ui = announced_as zc
  ads shutting = announced_as zc
  ads closing = []
  ads leaving = []

  abbrev pub inj_at : Stage → S
  inj_at in_ui = new
  inj_at shutting = new
  inj_at closing = new
  inj_at leaving = injector.close new

  abbrev pub is_serving : Life → Bool → Bool
  is_serving alive b = b
  is_serving _ b = false

  -- What holds of a program at all times.
  abbrev pub Holds : Program S → Type ℓ
  Holds p =
      (p.zc ≡ zc)
      × (p.net.announced ≡ ads p.stage)
      × (p.srv.inj ≡ inj_at p.stage)
      × (p.net.listening ≡ ports (is_serving p.life p.serving) p.port)
      × (p.window ≡ w)
      × ((p.stage ≡ in_ui) ⊎ (w ≡ true))
      × Settled p.life p.stage

  if-Holds :
      (b : Bool) (p q : Program S)
      → (b ≡ true → Holds p)
      → (b ≡ false → Holds q)
      → Holds (if b then p else q)
  if-Holds true p q h k = h refl
  if-Holds false p q h k = k refl

  pub is_serving-ended : (l : Life) (b : Bool) → l ≢ alive → is_serving l b ≡ false
  is_serving-ended alive b h = absurd (h refl)
  is_serving-ended exited b h = refl
  is_serving-ended fatal b h = refl
  is_serving-ended signalled b h = refl

  end_process-Holds :
      (l : Life) (p : Program S) → l ≢ alive → Settled l p.stage → Holds p → Holds (end_process l p)
  unfolding end_process
  end_process-Holds l p dead made (z, a, i, k, v, g, t) = (
    z,
    unfold close_port in a,
    i,
    close_port-ports (is_serving p.life p.serving) p.port p.net k
        ∙ ap (λ (b : Bool). ports b p.port) (sym (is_serving-ended l p.serving dead)),
    v,
    g,
    made,
  )

  fatal_ends : fatal ≢ alive
  fatal_ends e = cc

  exited_ends : exited ≢ alive
  exited_ends e = cc

  signalled_ends : signalled ≢ alive
  signalled_ends e = cc

  listen-Holds : (e : Env) (p : Program S) → p.life ≡ alive → Holds p → Holds (listen e p)
  unfolding listen listen_on serve_on
  listen-Holds e p r (z, a, i, k, v, g, t) =
      let h : Holds p = (z, a, i, k, v, g, t) in
      let none_yet : p.serving ≡ false → p.net.listening ≡ [] = λ s.
        k ∙ ap (λ (b : Bool). ports b p.port) (ap (λ (l : Life). is_serving l p.serving) r ∙ s) in
      let bound : Program S = record p {
        net = serve_on p.port (listen_on p.port p.net);
        serving = true;
      } in
      if-Holds p.serving p (if e.can_listen p.port then bound else end_process fatal p) (λ s. h)
        (λ s.
          if-Holds (e.can_listen p.port) bound (end_process fatal p)
            (λ c. (
              z,
              a,
              i,
              ap (◌∷◌ p.port) (none_yet s)
                  ∙ sym (ap (λ (l : Life). ports (is_serving l true) p.port) r),
              v,
              g,
              t,
            ))
            (λ c. end_process-Holds fatal p fatal_ends tt h))

  main_step_at-Holds :
      (x : Stage) (p : Program S)
      → p.stage ≡ x
      → p.life ≡ alive
      → Holds p
      → Holds (main_step_at injector x p)
  main_step_at-Holds in_ui p s r (z, a, i, k, v, g, t) =
      if-Holds p.window (record p { stage = shutting }) p
        (λ opened. (
          z,
          a ∙ ap ads s,
          i ∙ ap inj_at s,
          k,
          v,
          inr (sym v ∙ opened),
          Settled-alive p.life shutting r,
        ))
        (λ none. (z, a, i, k, v, g, t))
  main_step_at-Holds shutting p s r (z, a, i, k, v, g, t) = (
    z,
    ap (λ (x : Option Announcement). (shutdown_announcement x p.net).announced) z
        ∙ shutdown-announced_as zc p.net (a ∙ ap ads s),
    i ∙ ap inj_at s,
    shutdown-listening p.zc p.net ∙ k,
    v,
    inr (past_ui w p.stage shutting g s (λ e. cc)),
    Settled-alive p.life closing r,
  )
  main_step_at-Holds closing p s r (z, a, i, k, v, g, t) = (
    z,
    a ∙ ap ads s,
    ap injector.close (i ∙ ap inj_at s),
    k,
    v,
    inr (past_ui w p.stage closing g s (λ e. cc)),
    Settled-alive p.life leaving r,
  )
  main_step_at-Holds leaving p s r h = end_process-Holds exited p exited_ends s h

  happen-Holds :
      (h : Happening) (p : Program S) → p.life ≡ alive → Holds p → Holds (happen injector h p)
  unfolding accept_error main_step
  happen-Holds (listens e) p r h = listen-Holds e p r h
  happen-Holds accept_fails p r h =
      if-Holds p.serving (end_process fatal p) p (λ s. end_process-Holds fatal p fatal_ends tt h)
        (λ s. h)
  happen-Holds main_goes_on p r h = main_step_at-Holds p.stage p refl r h
  happen-Holds signal p r h = end_process-Holds signalled p signalled_ends tt h

  step_in-Holds :
      (x : Life) (h : Happening) (p : Program S)
      → p.life ≡ x
      → Holds p
      → Holds (step_in injector x h p)
  step_in-Holds alive h p e k = happen-Holds h p e k
  step_in-Holds exited h p e k = k
  step_in-Holds fatal h p e k = k
  step_in-Holds signalled h p e k = k

  pub run-Holds : (hs : List Happening) (p : Program S) → Holds p → Holds (run injector hs p)
  unfolding run step
  run-Holds [] p k = k
  run-Holds (h ∷ hs) p k = run-Holds hs (step injector h p) (step_in-Holds p.life h p refl k)
