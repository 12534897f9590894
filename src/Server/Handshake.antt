-- ===== src/Server/Handshake.antt =====
-- server/server.go: the handshake of one connection.
use remote_mouse.Common.{
  ℕ, String, Bool, true, false, [], ◌∷◌, ◌++◌, ◌≡◌, ◌↔◌, ◌⊎◌, inl, inr, arith, Bool-cases, str_eq,
  eq_iff, ◌&&◌,
}
use remote_mouse.Common.Int.{ℤ}
use remote_mouse.Proto.{In, Line, fits, unmarshal, Decoded}
use remote_mouse.Inject.{Injector}
use remote_mouse.Server.{
  Crypto, Server, Conn, Phase, wait_auth, ready, closed, derive_proof, ip_of, handle_line, on_line,
  on_hello, on_auth, on_event, return_from, deregister_conn, register_in, error_reply, auth_ok,
}

-- A connection is past the handshake.
abbrev pub is_ready : Phase → Bool
is_ready (ready cid) = true
is_ready _ = false

-- A connection waits for its second line.
abbrev pub awaits_auth : Phase → Bool
awaits_auth (wait_auth n) = true
awaits_auth _ = false

module _ {ℓ} {S : Type ℓ} (crypto : Crypto) (injector : Injector S) (screen : ℤ × ℤ) where
  -- The line authenticates this connection with the server's present password.
  abbrev pub Proves : Line → Conn → Server S → Type 0
  Proves l c s =
      let auth = (unmarshal l.body).0 in
      (fits l ≡ true)
      × (awaits_auth c.phase ≡ true)
      × (auth.t ≡ "auth")
      × (auth.proof ≡ derive_proof crypto s.password c.salt c.nonce)

  -- On a connection that is not yet authenticated, a line reaches the injector in no case, and the
  -- connection is authenticated exactly if the line proves the server's present password: it fits
  -- the buffer, comes second, has type "auth" and carries the proof of this connection's salt and
  -- nonce. The error of json.Unmarshal plays no part.
  pub auth_exact :
      (now : ℕ) (l : Line) (c : Conn) (s : Server S)
      → is_ready c.phase ≡ false
      → let (c', s') = handle_line crypto injector screen now l c s in
        (s'.inj ≡ s.inj) × ((is_ready c'.phase ≡ true) ↔ Proves l c s)
  unfolding handle_line on_line on_hello on_auth on_event return_from deregister_conn
  auth_exact now l c s h =
      let auth : In = (unmarshal l.body).0 in
      let want : String = derive_proof crypto s.password c.salt c.nonce in
      (
        ground arith,
        (
          ground (arith, eq_iff auth.t "auth", eq_iff auth.proof want),
          ground (arith, eq_iff auth.t "auth", eq_iff auth.proof want),
        ),
      )

  -- The second line decides: either it proves the password, and then the connection is told so with
  -- the server's name and registered under the name of its hello and its host, with nothing else
  -- changed; or it does not, and then the connection is told "auth_failed" and closed, and the
  -- server is as it was: the failure is not counted, and it locks nobody out.
  pub auth_outcome :
      (now : ℕ) (l : Line) (c : Conn) (s : Server S) (n : String)
      → c.phase ≡ wait_auth n
      → fits l ≡ true
      → let (c', s') = handle_line crypto injector screen now l c s in
        let (reg', cid) = register_in s.reg n (ip_of c.addr) now in
        (Proves l c s
          × (c' ≡ record c { phase = ready cid; sent = c.sent ++ auth_ok s.name "0.1" ∷ [] })
          × (s' ≡ record s { reg = reg' }))
        ⊎ ((¬ Proves l c s)
            × (c' ≡ record c {
              phase = closed;
              sent = c.sent ++ error_reply "auth_failed" "wrong password" ∷ [];
            })
            × (s' ≡ s))
  unfolding handle_line on_line on_auth return_from deregister_conn
  auth_outcome now l c s n e f =
      let auth : In = (unmarshal l.body).0 in
      let want : String = derive_proof crypto s.password c.salt c.nonce in
      elim (Bool-cases (str_eq auth.t "auth" && str_eq auth.proof want)) [
        | inl h ↦ inl (
          ground (arith, eq_iff auth.t "auth", eq_iff auth.proof want),
          ground arith,
          ground arith,
        )
        | inr h ↦ inr (
          λ p. ground (arith, eq_iff auth.t "auth", eq_iff auth.proof want),
          ground arith,
          ground arith,
        )
      ]

  pub on_event-ready :
      (d : Decoded) (c : Conn) (s : Server S) (p : Phase)
      → c.phase ≡ p
      → is_ready p ≡ true
      → let (c', s') = on_event crypto injector screen d c s in
        ((c'.phase ≡ p) × (s'.reg ≡ s.reg))
        ⊎ ((c'.phase ≡ closed) × (s'.reg ≡ (deregister_conn p s).reg))
  unfolding on_event return_from deregister_conn
  on_event-ready (m, true) c s p e h = ground arith
  on_event-ready (m, false) c s p e h = ground arith
