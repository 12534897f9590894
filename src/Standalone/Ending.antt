-- ===== src/Standalone/Ending.antt =====
-- server/serve.go: what an ended program leaves announced.
use remote_mouse.Common.{
  ◌≢◌, ◌&&◌, not, Bool, true, Option, some, List, [], ◌∷◌, ◌≡◌, refl, sym, ap, ◌∙◌, inl, inr, ◌⊎◌,
}
use remote_mouse.Config.{AppConfig}
use remote_mouse.Inject.{Injector}
use remote_mouse.Serving.{Env, Announcement}
use remote_mouse.Standalone.{
  Stage, in_ui, shutting, closing, leaving, Life, alive, exited, fatal, signalled, Program,
  Happening, serve_standalone, step_in, step, run,
}
use remote_mouse.Standalone.Always.{
  announced_as, ports, Settled, past_ui, ads, inj_at, is_serving-ended, Holds, run-Holds,
}

module _ {ℓ} {S : Type ℓ} (injector : Injector S) (zc : Option Announcement) (w : Bool)
    (new : S) where
  not-Settled : (l : Life) (x y : Stage) → Settled l x → x ≡ y → y ≢ leaving → l ≢ exited
  not-Settled alive x y t s h e = cc
  not-Settled exited x y t s h e = h (sym s ∙ t)
  not-Settled fatal x y t s h e = cc
  not-Settled signalled x y t s h e = cc

  -- What is known of a program, told apart by where `main` stands.
  outcomes :
      (x : Stage) (p : Program S)
      → p.stage ≡ x
      → Holds injector zc w new p
      → (((p.stage ≡ in_ui) ⊎ (p.stage ≡ shutting))
          × (p.net.announced ≡ announced_as zc)
          × (p.srv.inj ≡ new)
          × (p.life ≢ exited))
        ⊎ ((w ≡ true)
            × (p.net.announced ≡ [])
            × (((p.stage ≡ closing) × (p.srv.inj ≡ new) × (p.life ≢ exited))
                ⊎ ((p.stage ≡ leaving) × (p.srv.inj ≡ injector.close new))))
  outcomes in_ui p s (z, a, i, k, v, g, t) = inl (
    inl s,
    a ∙ ap (ads injector zc w new) s,
    i ∙ ap (inj_at injector zc w new) s,
    not-Settled p.life p.stage in_ui t s (λ e. cc),
  )
  outcomes shutting p s (z, a, i, k, v, g, t) = inl (
    inr s,
    a ∙ ap (ads injector zc w new) s,
    i ∙ ap (inj_at injector zc w new) s,
    not-Settled p.life p.stage shutting t s (λ e. cc),
  )
  outcomes closing p s (z, a, i, k, v, g, t) = inr (
    past_ui w p.stage closing g s (λ e. cc),
    a ∙ ap (ads injector zc w new) s,
    inl (s, i ∙ ap (inj_at injector zc w new) s, not-Settled p.life p.stage closing t s (λ e. cc)),
  )
  outcomes leaving p s (z, a, i, k, v, g, t) = inr (
    past_ui w p.stage leaving g s (λ e. cc),
    a ∙ ap (ads injector zc w new) s,
    inr (s, i ∙ ap (inj_at injector zc w new) s),
  )

  step_in-ended :
      (l : Life) (h : Happening) (p : Program S) → l ≢ alive → step_in injector l h p ≡ p
  step_in-ended alive h p dead = absurd (dead refl)
  step_in-ended exited h p dead = refl
  step_in-ended fatal h p dead = refl
  step_in-ended signalled h p dead = refl

  run_ended : (hs : List Happening) (p : Program S) → p.life ≢ alive → run injector hs p ≡ p
  unfolding run step
  run_ended [] p dead = refl
  run_ended (h ∷ hs) p dead =
      ap (run injector hs) (step_in-ended p.life h p dead) ∙ run_ended hs p dead

  life_cases : (l : Life) → (l ≡ alive) ⊎ (l ≢ alive)
  life_cases alive = inl refl
  life_cases exited = inr (λ e. cc)
  life_cases fatal = inr (λ e. cc)
  life_cases signalled = inr (λ e. cc)

  stays_ended :
      (more : List Happening) (p : Program S)
      → Holds injector zc w new p
      → (p.life ≡ alive) ⊎ ((p.net.listening ≡ []) × (run injector more p ≡ p))
  stays_ended more p (z, a, i, k, v, g, t) = elim (life_cases p.life) [
    | inl e ↦ inl e
    | inr dead ↦ inr (
      k
          ∙ ap (λ (b : Bool). ports b p.port)
              (is_serving-ended injector zc w new p.life p.serving dead),
      run_ended more p dead,
    )
  ]

-- A standalone program could announce itself. Whatever its listener meets, however far `main` gets and
-- whenever a signal ends the process: either `main` has not got past the deferred Shutdown, and then
-- the announcement is up and the injector open, also if log.Fatal or a signal has ended the process;
-- or runUI shows a window and `main` has got past it, and then nothing is announced, and the injector
-- is closed just if `main` has got past the deferred Close too, which it has if it has returned. A
-- process that has ended listens on no port and stays as it is, so what it has left announced nothing
-- withdraws.
pub fatal_leaves_announcement {ℓ} :
    {S : Type ℓ} (injector : Injector S) (e : Env) (shows : Bool) (new : S) (cfg : AppConfig)
    (hs more : List Happening)
    → e.can_announce ≡ true
    → let p = run injector hs (serve_standalone e shows new cfg) in
      ((((p.stage ≡ in_ui) ⊎ (p.stage ≡ shutting))
          × (p.net.announced ≡ record { id = 0; name = cfg.name; port = cfg.port } ∷ [])
          × (p.srv.inj ≡ new)
          × (p.life ≢ exited))
        ⊎ (((shows && not cfg.notray) ≡ true)
            × (p.net.announced ≡ [])
            × (((p.stage ≡ closing) × (p.srv.inj ≡ new) × (p.life ≢ exited))
                ⊎ ((p.stage ≡ leaving) × (p.srv.inj ≡ injector.close new)))))
      × ((p.life ≡ alive) ⊎ ((p.net.listening ≡ []) × (run injector more p ≡ p)))
unfolding serve_standalone
fatal_leaves_announcement injector e shows new cfg hs more can =
    let zc : Option Announcement = some (record { id = 0; name = cfg.name; port = cfg.port }) in
    let start : Program _ = serve_standalone e shows new cfg in
    let p : Program _ = run injector hs start in
    let holds =
      run-Holds injector zc (shows && not cfg.notray) new hs start
        (rw can refl, rw can refl, refl, rw can refl, refl, inl refl, tt) in
    (
      outcomes injector zc (shows && not cfg.notray) new p.stage p refl holds,
      stays_ended injector zc (shows && not cfg.notray) new more p holds,
    )
