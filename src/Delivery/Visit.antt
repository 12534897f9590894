-- ===== src/Delivery/Visit.antt =====
-- server/server.go with server/pipe_inject.go: a whole visit of a client, from its first line on.
use remote_mouse.Common.{
  ℕ, String, true, false, Option, some, List, [], ◌∷◌, str_eq, eq_iff, ◌≡◌, refl, ap, ◌∙◌, All,
  get_elem?,
}
use remote_mouse.Common.Int.{ℤ}
use remote_mouse.Proto.{Decoded, Line, fits, unmarshal}
use remote_mouse.Inject.{Injector, apply_events}
use remote_mouse.Inject.Fanout.{FanoutWriter}
use remote_mouse.Inject.Pipe.{PipeInjector, new_pipe_injector, pipe, run_agent_loop}
use remote_mouse.Inject.Sizes.{IsShort}
use remote_mouse.Inject.Broadcast.{PipeEnd, pipe_end, fan_out}
use remote_mouse.Server.{
  Crypto, Server, Conn, wait_hello, wait_auth, ready, on_line, on_hello, on_auth, send, challenge,
  auth_ok, iterations, derive_proof, register_in, ip_of,
}
use remote_mouse.Delivery.{feed, events}
use remote_mouse.Delivery.Path.{handle_line-fits, client_input_reaches_agents}

-- The two lines introduce a client on a fresh connection: they fit the buffer, the first one greets,
-- and the second one carries the proof of the server's password, for the connection's salt and nonce.
abbrev pub Introduces {ℓ} : {S : Type ℓ} → Crypto → Line → Line → Conn → Server S → Type 0
Introduces crypto hello auth c s =
    (c.phase ≡ wait_hello)
    × (fits hello ≡ true)
    × ((unmarshal hello.body).0.t ≡ "hello")
    × (fits auth ≡ true)
    × ((unmarshal auth.body).0.t ≡ "auth")
    × ((unmarshal auth.body).0.proof ≡ derive_proof crypto s.password c.salt c.nonce)

module _ {ℓ} {S : Type ℓ} (crypto : Crypto) (injector : Injector S) (screen : ℤ × ℤ) (now : ℕ) where
  unfoldable greeted : String → Conn → Conn
  greeted name c =
      record (send (challenge (crypto.base64 c.salt) (crypto.base64 c.nonce) iterations) c) {
        phase = wait_auth name;
      }

  unfoldable admitted : String → Conn → Server S → Conn × Server S
  admitted name c s =
      let (reg', cid) = register_in s.reg name (ip_of c.addr) now in
      (record (send (auth_ok s.name "0.1") c) { phase = ready cid }, record s { reg = reg' })

  on_line-hello :
      (d : Decoded) (c : Conn) (s : Server S)
      → c.phase ≡ wait_hello
      → d.0.t ≡ "hello"
      → on_line crypto injector screen c.phase now d c s ≡ (greeted d.0.name c, s)
  unfolding on_line on_hello greeted
  on_line-hello (m, ok) c s p h = rw (p, ap (λ x. str_eq x "hello") h) refl

  on_line-auth :
      (d : Decoded) (name : String) (c : Conn) (s : Server S)
      → d.0.t ≡ "auth"
      → d.0.proof ≡ derive_proof crypto s.password c.salt c.nonce
      → on_line crypto injector screen (wait_auth name) now d c s ≡ admitted name c s
  unfolding on_line on_auth admitted
  on_line-auth (m, ok) name c s t p =
      let want = derive_proof crypto s.password c.salt c.nonce in
      rw (ap (λ x. str_eq x "auth") t, (eq_iff m.proof want).1 p) refl

  -- After a greeting and a proof, the scan goes on with an authenticated connection.
  feed_visit :
      (hello auth : Line) (ls : List Line) (c : Conn) (s : Server S)
      → Introduces crypto hello auth c s
      → (d : Conn) × (t : Server S) × (cid : Option ℕ) × (feed crypto injector screen now
            (hello ∷ auth ∷ ls)
            c
            s
          ≡ feed crypto injector screen now ls d t)
        × (d.phase ≡ ready cid)
        × (t.inj ≡ s.inj)
  unfolding feed greeted admitted
  feed_visit hello auth ls c s (start, hf, ht, af, at, shown) =
      let name = (unmarshal hello.body).0.name in
      let go : List Line → Conn × Server S → Conn × Server S =
        λ l p. feed crypto injector screen now l p.0 p.1 in
      (
        (admitted name (greeted name c) s).0,
        (admitted name (greeted name c) s).1,
        (register_in s.reg name (ip_of c.addr) now).1,
        ap (go (auth ∷ ls)) (
              handle_line-fits crypto injector screen now hello c s hf
              ∙ on_line-hello (unmarshal hello.body) c s start ht)
            ∙ ap (go ls) (
                handle_line-fits crypto injector screen now auth (greeted name c) s af
                ∙ on_line-auth (unmarshal auth.body) name (greeted name c) s at shown),
        refl,
        refl,
      )

-- A client connects to the service, greets, proves the password and then sends any lines. Each agent
-- whose pipe is not broken injects exactly the events that these lines ask for, in order, up to a
-- "bye" or a line that is too long: malformed lines, pings and screen requests inject nothing, and the
-- pipes of the other agents may be broken. This is if the button names and texts of the events are at
-- most 80000 characters long, and nothing was written to the agent's pipe before.
pub visit_reaches_agents {ℓ} :
    {S : Type ℓ} (crypto : Crypto) (screen : ℤ × ℤ) (now : ℕ) (hello auth : Line) (ls : List Line)
    (c : Conn) (server : Server (PipeInjector (FanoutWriter PipeEnd))) (ends : List PipeEnd)
    (timeout : ℤ) (i : ℕ) (e : PipeEnd) (inj : Injector S) (s : S)
    → Introduces crypto hello auth c server
    → server.inj ≡ new_pipe_injector (some (record { ws = ends; timeout = timeout }))
    → All IsShort (events ls)
    → get_elem? ends i ≡ some e
    → e.broken ≡ false
    → e.got ≡ []
    → (f : FanoutWriter PipeEnd) × (v : PipeEnd) × ((feed crypto
          (pipe (fan_out pipe_end now))
          screen
          now
          (hello ∷ auth ∷ ls)
          c
          server).1.inj
        ≡ new_pipe_injector (some f))
      × (get_elem? f.ws i ≡ some v)
      × (run_agent_loop v.got inj s ≡ apply_events inj (events ls) s)
visit_reaches_agents crypto screen now hello auth ls c server ends timeout i e inj s intro start
      short found live new =
    let (d, t, cid, fed, ready_at, same) =
      feed_visit crypto (pipe (fan_out pipe_end now)) screen now hello auth ls c server intro in
    let (f, v, p, q, r) =
      client_input_reaches_agents crypto screen now ls d cid t ends timeout i e inj s ready_at
        (same ∙ start) short found live new in
    (f, v, ap (λ (x : Conn × Server (PipeInjector (FanoutWriter PipeEnd))). x.1.inj) fed ∙ p, q, r)
