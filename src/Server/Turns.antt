-- ===== src/Server/Turns.antt =====
-- server/server.go: what one turn of a connection does to its registration.
use remote_mouse.Common.{
  ℕ, ◌+◌, String, Option, none, some, List, ◌≡◌, refl, sym, ap, ◌∙◌, arith, Bool-cases, inl, inr,
  ◌==◌, if◌then◌else◌, ◌&&◌, str_eq,
}
use remote_mouse.Common.Int.{ℤ}
use remote_mouse.Proto.{Line, fits, Decoded, unmarshal}
use remote_mouse.Inject.{Injector}
use remote_mouse.Clients.{Client, ClientRegistry, lookup, register}
use remote_mouse.Clients.Registry.{
  register_fresh, register-IsSound, deregister_exact, deregister-IsSound,
}
use remote_mouse.Server.{
  Crypto, Server, Conn, Phase, wait_hello, wait_auth, ready, closed, handle_line, on_line, on_hello,
  on_auth, on_event, return_from, deregister_conn, deregister_in, register_in, derive_proof,
}
use remote_mouse.Server.Handshake.{on_event-ready}
use remote_mouse.Server.Counts.{holds, online, flag, Agrees, Room}

-- What one turn does to a connection's registration.
pub data Moves {ℓ} {S : Type ℓ} (c : Conn) (s : Server S) (d : Conn) (t : Server S) : Type ℓ where
  keeps : ((id : ℕ) → holds id d.phase ≡ holds id c.phase) → t.reg ≡ s.reg → Moves c s d t
  registers :
      (name addr : String) (now : ℕ)
      → ((id : ℕ) → holds id c.phase ≡ 0)
      → d.phase ≡ ready (register_in s.reg name addr now).1
      → t.reg ≡ (register_in s.reg name addr now).0
      → Moves c s d t
  leaves : d.phase ≡ closed → t.reg ≡ (deregister_conn c.phase s).reg → Moves c s d t

pub return_from-Moves {ℓ} :
    {S : Type ℓ} (c d : Conn) (s : Server S)
    → c.phase ≡ d.phase
    → Moves c s (return_from d s).0 (return_from d s).1
unfolding return_from
return_from-Moves c d s e = leaves refl (rw e refl)

pub keeps-Agrees :
    (r : Option ClientRegistry) (cs ds : List Conn)
    → ((id : ℕ) → online id ds ≡ online id cs)
    → Agrees r cs
    → Agrees r ds
keeps-Agrees none cs ds e h = λ id. e id ∙ h id
keeps-Agrees (some r) cs ds e h = (h.0, λ id. e id ∙ h.1 id)

counted :
    (new id : ℕ) (c : Client) (m : List (ℕ × Client)) (before after : ℕ)
    → lookup new m ≡ none
    → before ≡ flag (lookup id m)
    → after ≡ before + holds id (ready (some new))
    → after ≡ flag (if new == id then some c else lookup id m)
counted new id c m before after e f g = ground arith

pub registers-Agrees :
    (r : Option ClientRegistry) (name addr : String) (now : ℕ) (cs ds : List Conn)
    → let (r', cid) = register_in r name addr now in
      Room 1 r
      → ((id : ℕ) → online id ds ≡ online id cs + holds id (ready cid))
      → Agrees r cs
      → Agrees r' ds
registers-Agrees none name addr now cs ds room e h = λ id. omega (arith, e id, h id)
registers-Agrees (some r) name addr now cs ds room e h =
    let fresh = register_fresh name addr now r room h.0 in
    (
      register-IsSound name addr now r room h.0,
      λ id.
          rw (fresh.1 id)
            (counted (register name addr now r).1 id _ r.clients _ _ fresh.0 (h.1 id) (e id)),
    )

pub leaves-Agrees :
    (r : Option ClientRegistry) (cid : ℕ) (cs ds : List Conn)
    → ((id : ℕ) → online id ds + holds id (ready (some cid)) ≡ online id cs)
    → Agrees r cs
    → Agrees (deregister_in cid r) ds
leaves-Agrees none cid cs ds e h = λ id. omega (arith, e id, h id)
leaves-Agrees (some r) cid cs ds e h =
    let exact = deregister_exact cid r in
    (deregister-IsSound cid r h.0, λ id. rw (exact.0 id) (ground (arith, e id, h.1 id)))

module _ {ℓ} {S : Type ℓ} (crypto : Crypto) (injector : Injector S) (screen : ℤ × ℤ) where
  on_hello-Moves :
      (d : Decoded) (c : Conn) (s : Server S)
      → c.phase ≡ wait_hello
      → let (c', s') = on_hello crypto injector screen d c s in Moves c s c' s'
  unfolding on_hello
  on_hello-Moves (m, ok) c s e = elim (Bool-cases (str_eq m.t "hello")) [
    | inl h ↦ rw h (keeps (λ id. rw e refl) refl)
    | inr h ↦ rw h (return_from-Moves c _ s refl)
  ]

  on_auth-Moves :
      (n : String) (now : ℕ) (d : Decoded) (c : Conn) (s : Server S)
      → c.phase ≡ wait_auth n
      → let (c', s') = on_auth crypto injector screen n now d c s in Moves c s c' s'
  unfolding on_auth
  on_auth-Moves n now (m, ok) c s e =
      elim (Bool-cases
        (str_eq m.t "auth" && str_eq m.proof (derive_proof crypto s.password c.salt c.nonce))) [
          | inl h ↦ rw h (registers n _ now (λ id. rw e refl) refl refl)
          | inr h ↦ rw h (return_from-Moves c _ s refl)
        ]

  on_event-Moves :
      (d : Decoded) (c : Conn) (s : Server S) (cid : Option ℕ)
      → c.phase ≡ ready cid
      → let (c', s') = on_event crypto injector screen d c s in Moves c s c' s'
  on_event-Moves d c s cid e =
      elim (on_event-ready crypto injector screen d c s (ready cid) e refl) [
        | inl (p, q) ↦ keeps (λ id. rw p (rw e refl)) q
        | inr (p, q) ↦ leaves p (q ∙ ap (λ (x : Phase). (deregister_conn x s).reg) (sym e))
      ]

  on_line-Moves :
      (p : Phase) (now : ℕ) (d : Decoded) (c : Conn) (s : Server S)
      → c.phase ≡ p
      → let (c', s') = on_line crypto injector screen p now d c s in Moves c s c' s'
  unfolding on_line
  on_line-Moves wait_hello now d c s e = on_hello-Moves d c s e
  on_line-Moves (wait_auth n) now d c s e = on_auth-Moves n now d c s e
  on_line-Moves (ready cid) now d c s e = on_event-Moves d c s cid e
  on_line-Moves closed now d c s e = keeps (λ id. refl) refl

  pub handle_line-Moves :
      (now : ℕ) (l : Line) (c : Conn) (s : Server S)
      → let (c', s') = handle_line crypto injector screen now l c s in Moves c s c' s'
  unfolding handle_line
  handle_line-Moves now l c s = elim (Bool-cases (fits l)) [
    | inl h ↦ rw h (on_line-Moves c.phase now (unmarshal l.body) c s refl)
    | inr h ↦ rw h (return_from-Moves c c s refl)
  ]
