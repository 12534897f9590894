-- ===== src/Server/Online.antt =====
-- server/server.go with server/clients.go: the registry lists exactly the connections that are
-- online.
use remote_mouse.Common.{
  ℕ, suc, ◌+◌, String, Option, none, some, List, [], ◌∷◌, ◌≡◌, refl, ap, arith, get_elem?, set,
  length, Option-cases, inl, inr,
}
use remote_mouse.Common.Int.{ℤ}
use remote_mouse.Inject.{Injector}
use remote_mouse.Clients.{ClientRegistry, register}
use remote_mouse.Clients.Registry.{deregister_exact}
use remote_mouse.Server.{
  Crypto, Server, Conn, Phase, wait_hello, wait_auth, ready, closed, set_password, set_name,
  deregister_conn, deregister_in, register_in,
}
use remote_mouse.Server.World.{
  World, Action, accept, line, hang_up, change_password, change_name, new_conn, on_line_at,
  on_end_at, step, run,
}
use remote_mouse.Server.Counts.{holds, online, online-append, online-set, Agrees, Room}
use remote_mouse.Server.Turns.{
  Moves, return_from-Moves, keeps-Agrees, registers-Agrees, leaves-Agrees, registers,
  handle_line-Moves, keeps, leaves,
}

leaves_phase {ℓ} :
    {S : Type ℓ} (x : Phase) (s : Server S) (cs ds : List Conn)
    → ((id : ℕ) → online id ds + holds id x ≡ online id cs)
    → Agrees s.reg cs
    → Agrees (deregister_conn x s).reg ds
unfolding deregister_conn
leaves_phase (ready (some cid)) s cs ds e h = leaves-Agrees s.reg cid cs ds e h
leaves_phase (ready none) s cs ds e h = keeps-Agrees s.reg cs ds (λ id. omega (arith, e id)) h
leaves_phase wait_hello s cs ds e h = keeps-Agrees s.reg cs ds (λ id. omega (arith, e id)) h
leaves_phase (wait_auth n) s cs ds e h = keeps-Agrees s.reg cs ds (λ id. omega (arith, e id)) h
leaves_phase closed s cs ds e h = keeps-Agrees s.reg cs ds (λ id. omega (arith, e id)) h

Moves-Agrees {ℓ} :
    {S : Type ℓ} (cs : List Conn) (i : ℕ) (c d : Conn) (s t : Server S)
    → get_elem? cs i ≡ some c
    → Room 1 s.reg
    → Agrees s.reg cs
    → Moves c s d t
    → Agrees t.reg (set cs i d)
Moves-Agrees cs i c d s t e room h (keeps k q) =
    rw q
      (keeps-Agrees s.reg cs (set cs i d) (λ id. omega (arith, online-set id cs i c d e, k id)) h)
Moves-Agrees cs i c d s t e room h (registers name addr now k p q) = rw q (
    registers-Agrees s.reg name addr now cs (set cs i d) room
      (λ id. omega (arith, online-set id cs i c d e, k id, ap (holds id) p)) h)
Moves-Agrees cs i c d s t e room h (leaves p q) = rw q (
    leaves_phase c.phase s cs (set cs i d)
      (λ id. omega (arith, online-set id cs i c d e, ap (holds id) p)) h)

-- Deregistering frees no id, and one registration takes one.
deregister_in-Room :
    (r : Option ClientRegistry) (cid n : ℕ) → Room n r → Room n (deregister_in cid r)
deregister_in-Room none cid n h = tt
deregister_in-Room (some r) cid n h = omega (arith, (deregister_exact cid r).1)

deregister_conn-Room {ℓ} :
    {S : Type ℓ} (x : Phase) (s : Server S) (n : ℕ)
    → Room n s.reg
    → Room n (deregister_conn x s).reg
unfolding deregister_conn
deregister_conn-Room (ready (some cid)) s n h = deregister_in-Room s.reg cid n h
deregister_conn-Room (ready none) s n h = h
deregister_conn-Room wait_hello s n h = h
deregister_conn-Room (wait_auth m) s n h = h
deregister_conn-Room closed s n h = h

Room-mono : (r : Option ClientRegistry) (n : ℕ) → Room (suc n) r → Room n r
Room-mono none n h = tt
Room-mono (some r) n h = omega arith

register_in-Room :
    (r : Option ClientRegistry) (name addr : String) (now n : ℕ)
    → Room (suc n) r
    → Room n (register_in r name addr now).0
unfolding register
register_in-Room none name addr now n h = tt
register_in-Room (some r) name addr now n h = ground arith

Moves-Room {ℓ} :
    {S : Type ℓ} (c d : Conn) (s t : Server S) (n : ℕ)
    → Room (suc n) s.reg
    → Moves c s d t
    → Room n t.reg
Moves-Room c d s t n h (keeps k q) = rw q (Room-mono s.reg n h)
Moves-Room c d s t n h (registers name addr now k p q) =
    rw q (register_in-Room s.reg name addr now n h)
Moves-Room c d s t n h (leaves p q) = rw q (deregister_conn-Room c.phase s n (Room-mono s.reg n h))

Room-one : (r : Option ClientRegistry) (n : ℕ) → Room (suc n) r → Room 1 r
Room-one none n h = tt
Room-one (some r) n h = omega arith

module _ {ℓ} {S : Type ℓ} (crypto : Crypto) (injector : Injector S) (screen : ℤ × ℤ) where
  step-Agrees :
      (w : World S) (a : Action) (n : ℕ)
      → Room (suc n) w.server.reg
      → Agrees w.server.reg w.conns
      → let w' = step crypto injector screen w a in
        Agrees w'.server.reg w'.conns × Room n w'.server.reg
  unfolding step on_line_at on_end_at set_password set_name
  step-Agrees w (accept addr salt nonce) n room h = (
    keeps-Agrees w.server.reg w.conns _
        (λ id. omega (arith, online-append id w.conns (new_conn addr salt nonce ∷ []))) h,
    Room-mono w.server.reg n room,
  )
  step-Agrees w (line i now l) n room h = elim (Option-cases (get_elem? w.conns i)) [
    | inl e ↦ rw e (h, Room-mono w.server.reg n room)
    | inr (c, e) ↦
        let m = handle_line-Moves crypto injector screen now l c w.server in
        rw e (
          Moves-Agrees w.conns i c _ w.server _ e (Room-one w.server.reg n room) h m,
          Moves-Room c _ w.server _ n room m,
        )
  ]
  step-Agrees w (hang_up i) n room h = elim (Option-cases (get_elem? w.conns i)) [
    | inl e ↦ rw e (h, Room-mono w.server.reg n room)
    | inr (c, e) ↦
        let m = return_from-Moves c c w.server refl in
        rw e (
          Moves-Agrees w.conns i c _ w.server _ e (Room-one w.server.reg n room) h m,
          Moves-Room c _ w.server _ n room m,
        )
  ]
  step-Agrees w (change_password p) n room h = (h, Room-mono w.server.reg n room)
  step-Agrees w (change_name p) n room h = (h, Room-mono w.server.reg n room)

  -- Whatever connections come and go, whatever lines they send and however the password and the name
  -- change meanwhile, an id is in the registry just if exactly one connection is online under it,
  -- and no two connections share an id; if this holds at the start and the 64-bit counter has room
  -- for the history.
  pub registry-Agrees :
      (w : World S) (history : List Action)
      → Room (length history) w.server.reg
      → Agrees w.server.reg w.conns
      → let w' = run crypto injector screen w history in Agrees w'.server.reg w'.conns
  unfolding run
  registry-Agrees w [] room h = h
  registry-Agrees w (a ∷ rest) room h =
      let next = step-Agrees w a (length rest) room h in
      registry-Agrees (step crypto injector screen w a) rest next.1 next.0
