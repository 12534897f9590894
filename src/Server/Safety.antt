-- ===== src/Server/Safety.antt =====
-- server/server.go: nobody controls the pointer or the keyboard without the password.
use remote_mouse.Common.{
  ℕ, false, some, List, [], ◌∷◌, ◌≡◌, refl, ◌∙◌, arith, All, All-append, All-set, All-get_elem?,
  get_elem?, Bool-cases, Option-cases, inl, inr,
}
use remote_mouse.Common.Int.{ℤ}
use remote_mouse.Proto.{Line}
use remote_mouse.Inject.{Injector}
use remote_mouse.Server.{
  Crypto, Server, Conn, set_password, set_name, handle_line, return_from, deregister_conn,
}
use remote_mouse.Server.World.{
  World, Action, accept, line, hang_up, change_password, change_name, on_line_at, on_end_at, step,
  run,
}
use remote_mouse.Server.Handshake.{is_ready, Proves, auth_exact}

-- No connection is past the handshake.
abbrev pub NoneReady : List Conn → Type 0
NoneReady = All (λ c. is_ready c.phase ≡ false)

module _ {ℓ} {S : Type ℓ} (crypto : Crypto) (injector : Injector S) (screen : ℤ × ℤ) where
  -- The action is a line that proves the password of this moment.
  abbrev pub ProvesAt : World S → Action → Type 0
  ProvesAt w (line i now l) =
      (c : Conn) × (get_elem? w.conns i ≡ some c) × Proves crypto injector screen l c w.server
  ProvesAt w _ = ⊥

  -- No action of the history is such a line, when its turn comes.
  abbrev pub NeverProves : World S → List Action → Type 0
  NeverProves w [] = Unit
  NeverProves w (a ∷ rest) = (¬ ProvesAt w a) × NeverProves (step crypto injector screen w a) rest

  return_from-quiet :
      (c : Conn) (s : Server S)
      → ((return_from c s).1.inj ≡ s.inj) × (is_ready (return_from c s).0.phase ≡ false)
  unfolding return_from deregister_conn
  return_from-quiet c s = ground arith

  line-quiet :
      (now : ℕ) (l : Line) (c : Conn) (s : Server S)
      → is_ready c.phase ≡ false
      → ¬ Proves crypto injector screen l c s
      → let (c', s') = handle_line crypto injector screen now l c s in
        (s'.inj ≡ s.inj) × (is_ready c'.phase ≡ false)
  line-quiet now l c s h np =
      let exact = auth_exact crypto injector screen now l c s h in
      let c' : Conn = (handle_line crypto injector screen now l c s).0 in
      (
        exact.0,
        elim (Bool-cases (is_ready c'.phase)) [ inl e ↦ absurd (np (exact.1.0 e)) | inr e ↦ e ],
      )

  step-quiet :
      (w : World S) (a : Action)
      → NoneReady w.conns
      → ¬ ProvesAt w a
      → let w' = step crypto injector screen w a in
        (w'.server.inj ≡ w.server.inj) × NoneReady w'.conns
  unfolding step on_line_at on_end_at set_password set_name
  step-quiet w (accept addr salt nonce) h np =
      (refl, All-append (λ c. is_ready c.phase ≡ false) w.conns _ h (refl, tt))
  step-quiet w (line i now l) h np = elim (Option-cases (get_elem? w.conns i)) [
    | inl e ↦ rw e (refl, h)
    | inr (c, e) ↦
        let quiet =
          line-quiet now l c w.server (All-get_elem? _ w.conns i c h e) (λ p. np (c, e, p)) in
        rw e (quiet.0, All-set _ w.conns i _ quiet.1 h)
  ]
  step-quiet w (hang_up i) h np = elim (Option-cases (get_elem? w.conns i)) [
    | inl e ↦ rw e (refl, h)
    | inr (c, e) ↦
        let quiet = return_from-quiet c w.server in rw e (quiet.0, All-set _ w.conns i _ quiet.1 h)
  ]
  step-quiet w (change_password p) h np = (refl, h)
  step-quiet w (change_name n) h np = (refl, h)

  -- Take any interleaving of connections that come and go, lines that they send and changes of the
  -- password or the name, on a server with no authenticated connection. If no line in it proves the
  -- password of its moment, then nothing is injected, and no connection is authenticated.
  pub no_proof_no_input :
      (w : World S) (history : List Action)
      → NoneReady w.conns
      → NeverProves w history
      → let w' = run crypto injector screen w history in
        (w'.server.inj ≡ w.server.inj) × NoneReady w'.conns
  unfolding run
  no_proof_no_input w [] h np = (refl, h)
  no_proof_no_input w (a ∷ rest) h np =
      let quiet = step-quiet w a h np.0 in
      let later = no_proof_no_input (step crypto injector screen w a) rest quiet.1 np.1 in
      (later.0 ∙ quiet.0, later.1)
