-- ===== src/Delivery/Path.antt =====
-- server/server.go with server/pipe_inject.go: the service injects on every desktop what the client
-- sends.
use remote_mouse.Common.{
  ℕ, true, false, Option, none, some, List, [], ◌∷◌, str_eq, ◌≡◌, refl, ap, ◌∙◌, Bool-cases, inl,
  inr, All, get_elem?,
}
use remote_mouse.Common.Int.{ℤ}
use remote_mouse.Proto.{In, Decoded, Line, fits, unmarshal}
use remote_mouse.Proto.RoundTrip.{IsGoMessage}
use remote_mouse.Proto.Bounds.{unmarshal-IsGoMessage}
use remote_mouse.Inject.{Injector, apply_events}
use remote_mouse.Inject.Fanout.{FanoutWriter}
use remote_mouse.Inject.Pipe.{PipeInjector, new_pipe_injector, pipe, run_agent_loop}
use remote_mouse.Inject.Sizes.{IsShort}
use remote_mouse.Inject.Broadcast.{PipeEnd, pipe_end, fan_out, broadcast_reaches_live_agents}
use remote_mouse.Server.{
  Crypto, Server, Conn, Phase, wait_hello, wait_auth, ready, closed, handle_line, on_line, on_event,
  return_from, deregister_conn,
}
use remote_mouse.Delivery.{feed, event_before, events}

module _ {ℓ} {S : Type ℓ} where
  deregister_conn-inj : (p : Phase) (s : Server S) → (deregister_conn p s).inj ≡ s.inj
  unfolding deregister_conn
  deregister_conn-inj wait_hello s = refl
  deregister_conn-inj (wait_auth n) s = refl
  deregister_conn-inj (ready none) s = refl
  deregister_conn-inj (ready (some cid)) s = refl
  deregister_conn-inj closed s = refl

module _ {ℓ} {S : Type ℓ} (injector : Injector S) (crypto : Crypto) (screen : ℤ × ℤ) where
  -- What follows a turn on an event, given what follows in the two phases that it can end in.
  on_event_then :
      (d : Decoded) (c : Conn) (s : Server S) (cid : Option ℕ) (rest : List In)
      (k : Conn → Server S → S)
      → ((e : Conn) (t : Server S) → e.phase ≡ ready cid → k e t ≡ apply_events injector rest t.inj)
      → ((e : Conn) (t : Server S) → e.phase ≡ closed → k e t ≡ t.inj)
      → c.phase ≡ ready cid
      → k (on_event crypto injector screen d c s).0 (on_event crypto injector screen d c s).1
        ≡ apply_events injector (event_before d rest) s.inj
  unfolding on_event apply_events return_from
  on_event_then (m, false) c s cid rest k stay shut h = stay c s h
  on_event_then (m, true) c s cid rest k stay shut h = elim (Bool-cases (str_eq m.t "ping")) [
    | inl p ↦ rw p (stay _ s h)
    | inr p ↦ elim (Bool-cases (str_eq m.t "getscreen")) [
      | inl g ↦ rw (p, g) (stay _ s h)
      | inr g ↦ elim (Bool-cases (str_eq m.t "bye")) [
        | inl b ↦
            rw (p, g, b)
              (unfold apply_events in
                shut _ (deregister_conn c.phase s) refl ∙ deregister_conn-inj c.phase s)
        | inr b ↦ rw (p, g, b) (stay c _ h)
      ]
    ]
  ]

module _ {ℓ} {S : Type ℓ} (crypto : Crypto) (injector : Injector S) (screen : ℤ × ℤ) (now : ℕ) where
  pub handle_line-fits :
      (l : Line) (c : Conn) (s : Server S)
      → fits l ≡ true
      → handle_line crypto injector screen now l c s
        ≡ on_line crypto injector screen c.phase now (unmarshal l.body) c s
  unfolding handle_line
  handle_line-fits l c s f = rw f refl

  handle_line-long :
      (l : Line) (c : Conn) (s : Server S)
      → fits l ≡ false
      → handle_line crypto injector screen now l c s ≡ return_from c s
  unfolding handle_line
  handle_line-long l c s f = rw f refl

  on_line-closed :
      (d : Decoded) (c : Conn) (s : Server S)
      → c.phase ≡ closed
      → on_line crypto injector screen c.phase now d c s ≡ (c, s)
  unfolding on_line
  on_line-closed d c s h = rw h refl

  on_line-ready :
      (d : Decoded) (c : Conn) (s : Server S) (cid : Option ℕ)
      → c.phase ≡ ready cid
      → on_line crypto injector screen c.phase now d c s ≡ on_event crypto injector screen d c s
  unfolding on_line
  on_line-ready d c s cid h = rw h refl

  unfoldable pub after : List Line → Conn × Server S → S
  after ls p = (feed crypto injector screen now ls p.0 p.1).1.inj

  -- A connection that is closed injects nothing more.
  feed_closed :
      (ls : List Line) (c : Conn) (s : Server S)
      → c.phase ≡ closed
      → (feed crypto injector screen now ls c s).1.inj ≡ s.inj
  unfolding feed after return_from
  feed_closed [] c s h = refl
  feed_closed (l ∷ ls) c s h = elim (Bool-cases (fits l)) [
    | inl f ↦
        ap (after ls) (handle_line-fits l c s f ∙ on_line-closed (unmarshal l.body) c s h)
        ∙ feed_closed ls c s h
    | inr f ↦
        ap (after ls) (handle_line-long l c s f)
        ∙ feed_closed ls (record c { phase = closed }) (deregister_conn c.phase s) refl
        ∙ deregister_conn-inj c.phase s
  ]

  feed_returned : (ls : List Line) (c : Conn) (s : Server S) → after ls (return_from c s) ≡ s.inj
  unfolding after return_from
  feed_returned ls c s =
      feed_closed ls (record c { phase = closed }) (deregister_conn c.phase s) refl
      ∙ deregister_conn-inj c.phase s

  pub feed_ready :
      (ls : List Line) (c : Conn) (s : Server S) (cid : Option ℕ)
      → c.phase ≡ ready cid
      → (feed crypto injector screen now ls c s).1.inj ≡ apply_events injector (events ls) s.inj
  unfolding feed events after
  feed_ready [] c s cid h = unfold apply_events in refl
  feed_ready (l ∷ ls) c s cid h = elim (Bool-cases (fits l)) [
    | inr f ↦
        rw f
          (unfold apply_events in ap (after ls) (handle_line-long l c s f) ∙ feed_returned ls c s)
    | inl f ↦ rw f (
        ap (after ls) (handle_line-fits l c s f ∙ on_line-ready (unmarshal l.body) c s cid h)
        ∙ on_event_then injector crypto screen (unmarshal l.body) c s cid (events ls)
            (λ e t. after ls (e, t)) (λ e t. feed_ready ls e t cid) (feed_closed ls) h)
  ]

event_before-IsGoMessage :
    (d : Decoded) (rest : List In)
    → IsGoMessage d.0
    → All IsGoMessage rest
    → All IsGoMessage (event_before d rest)
event_before-IsGoMessage (m, false) rest h a = a
event_before-IsGoMessage (m, true) rest h a = elim (Bool-cases (str_eq m.t "ping")) [
  | inl p ↦ rw p a
  | inr p ↦ elim (Bool-cases (str_eq m.t "getscreen")) [
    | inl g ↦ rw (p, g) a
    | inr g ↦ elim (Bool-cases (str_eq m.t "bye")) [
      | inl b ↦ rw (p, g, b) tt
      | inr b ↦ rw (p, g, b) (h, a)
    ]
  ]
]

events-IsGoMessage : (ls : List Line) → All IsGoMessage (events ls)
unfolding events
events-IsGoMessage [] = tt
events-IsGoMessage (l ∷ ls) = elim (Bool-cases (fits l)) [
  | inl f ↦ rw f (
      event_before-IsGoMessage (unmarshal l.body) (events ls) (unmarshal-IsGoMessage l.body)
        (events-IsGoMessage ls))
  | inr f ↦ rw f tt
]

-- Whatever lines an authenticated client sends, each agent whose pipe is not broken injects exactly
-- the events that the lines ask for, in order, up to a "bye" or a line that is too long: malformed
-- lines, pings and screen requests inject nothing, and the pipes of the other agents may be broken.
-- This is if the button names and texts of the events are at most 80000 characters long, and nothing
-- was written to the pipe before.
pub client_input_reaches_agents {ℓ} :
    {S : Type ℓ} (crypto : Crypto) (screen : ℤ × ℤ) (now : ℕ) (ls : List Line) (c : Conn)
    (cid : Option ℕ) (server : Server (PipeInjector (FanoutWriter PipeEnd))) (ends : List PipeEnd)
    (timeout : ℤ) (i : ℕ) (e : PipeEnd) (inj : Injector S) (s : S)
    → c.phase ≡ ready cid
    → server.inj ≡ new_pipe_injector (some (record { ws = ends; timeout = timeout }))
    → All IsShort (events ls)
    → get_elem? ends i ≡ some e
    → e.broken ≡ false
    → e.got ≡ []
    → (f : FanoutWriter PipeEnd) × (v : PipeEnd) × ((feed crypto
          (pipe (fan_out pipe_end now))
          screen
          now
          ls
          c
          server).1.inj
        ≡ new_pipe_injector (some f))
      × (get_elem? f.ws i ≡ some v)
      × (run_agent_loop v.got inj s ≡ apply_events inj (events ls) s)
client_input_reaches_agents crypto screen now ls c cid server ends timeout i e inj s ready_at start
      short at live new =
    let writer = pipe (fan_out pipe_end now) in
    let (f, v, p, q, r) =
      broadcast_reaches_live_agents inj now timeout (events ls) s ends i e (events-IsGoMessage ls)
        short at live new in
    (
      f,
      v,
      feed_ready crypto writer screen now ls c server cid ready_at
          ∙ ap (apply_events writer (events ls)) start
          ∙ p,
      q,
      r,
    )
