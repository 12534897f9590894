-- ===== src/Clients/Refinement.antt =====
-- server/clients.go: the registry as its users see it, a history of connections.
use remote_mouse.Common.{
  ℕ, suc, ◌+◌, ◌≤◌, ◌<◌, ◌%◌, ◌^◌, String, true, false, Option, none, some, List, [], ◌∷◌, ◌≡◌,
  refl, ap, ◌∙◌, arith, ◌==◌, if◌then◌else◌, length, Bool-cases, inl, inr,
}
use remote_mouse.Clients.{
  Client, ClientRegistry, new_client_registry, set_on_change, lookup, register, deregister,
  is_there, notify,
}
use remote_mouse.Clients.Registry.{lookup-insert, deregister_exact}

-- A call of a user of the registry.
pub data Call : Type 0 where
  connect : String → String → ℕ → Call
  disconnect : ℕ → Call

-- What the users are promised: who is connected under each id, how many connections there have been
-- and how often the set has changed. The ids count the connections and never run out.
pub record Connections : Type 0 where
  pub connected : ℕ → Option Client
  pub count : ℕ
  pub changes : ℕ

abbrev pub no_connections : Connections
no_connections = record { connected = λ id. none; count = 0; changes = 0 }

unfoldable pub promise : Call → Connections → Connections
promise (connect name addr now) s =
    let id = suc s.count in
    record {
      connected = λ j.
          if id == j
          then some (record { name = name; addr = addr; since = now; seq = id })
          else s.connected j;
      count = id;
      changes = suc s.changes;
    }
promise (disconnect id) s = record s {
  connected = λ j. if id == j then none else s.connected j;
  changes = if is_there (s.connected id) then suc s.changes else s.changes;
}

unfoldable pub perform : Call → ClientRegistry → ClientRegistry
unfolding register deregister
perform (connect name addr now) r = (register name addr now r).0
perform (disconnect id) r = deregister id r

abbrev pub replay {ℓ} : {S : Type ℓ} → (Call → S → S) → S → List Call → S
replay step s [] = s
replay step s (c ∷ cs) = replay step (step c s) cs

-- The registry keeps the promise.
pub record Keeps (s : Connections) (r : ClientRegistry) : Type 0 where
  pub shown : (id : ℕ) → lookup id r.clients ≡ s.connected id
  pub counted : r.next_id ≡ s.count
  pub heard : r.on_change ≡ true
  pub notified : r.notified ≡ s.changes

deregister-on_change : (id : ℕ) (r : ClientRegistry) → (deregister id r).on_change ≡ r.on_change
unfolding deregister notify
deregister-on_change id r = ground arith

perform-Keeps :
    (c : Call) (s : Connections) (r : ClientRegistry)
    → s.count + 1 < 2 ^ 64
    → Keeps s r
    → Keeps (promise c s) (perform c r)
unfolding promise perform register notify
perform-Keeps (connect name addr now) s r room k =
    let id : (r.next_id + 1) % 2 ^ 64 ≡ suc s.count = omega (arith, k.counted) in
    let c : Client = record { name = name; addr = addr; since = now; seq = suc s.count } in
    record {
      shown = λ j.
          rw (k.heard, id)
            (lookup-insert (suc s.count) c j r.clients
              ∙ ap (λ (o : Option Client). if suc s.count == j then some c else o) (k.shown j));
      counted = rw (k.heard, id) refl;
      heard = rw k.heard refl;
      notified = rw k.heard (ap suc k.notified);
    }
perform-Keeps (disconnect id) s r room k =
    let (shown, counted, notified) = deregister_exact id r in
    record {
      shown = λ j. shown j ∙ ap (λ (o : Option Client). if id == j then none else o) (k.shown j);
      counted = counted ∙ k.counted;
      heard = deregister-on_change id r ∙ k.heard;
      notified = notified ∙ rw (k.heard, k.shown id, k.notified) refl;
    }

promise-count-le : (c : Call) (s : Connections) → (promise c s).count ≤ suc s.count
unfolding promise
promise-count-le (connect name addr now) s = omega arith
promise-count-le (disconnect id) s = omega arith

replay-Keeps :
    (cs : List Call) (s : Connections) (r : ClientRegistry)
    → s.count + length cs < 2 ^ 64
    → Keeps s r
    → Keeps (replay promise s cs) (replay perform r cs)
replay-Keeps [] s r room k = k
replay-Keeps (c ∷ cs) s r room k =
    replay-Keeps cs (promise c s) (perform c r) (omega (arith, promise-count-le c s))
      (perform-Keeps c s r (omega arith) k)

count-le : (cs : List Call) (s : Connections) → (replay promise s cs).count ≤ s.count + length cs
count-le [] s = omega arith
count-le (c ∷ cs) s = omega (arith, count-le cs (promise c s), promise-count-le c s)

-- No id above the count has been given.
abbrev pub IsFresh : Connections → Type 0
IsFresh s = (id : ℕ) → suc s.count ≤ id → s.connected id ≡ none

promise-IsFresh : (c : Call) (s : Connections) → IsFresh s → IsFresh (promise c s)
unfolding promise
promise-IsFresh (connect name addr now) s f id h =
    let apart : (suc s.count == id) ≡ false = ground arith in rw apart (f id (omega arith))
promise-IsFresh (disconnect k) s f id h = elim (Bool-cases (k == id)) [
  | inl e ↦ rw e refl
  | inr e ↦ rw e (f id h)
]

IsFresh-replay : (cs : List Call) (s : Connections) → IsFresh s → IsFresh (replay promise s cs)
IsFresh-replay [] s f = f
IsFresh-replay (c ∷ cs) s f = IsFresh-replay cs (promise c s) (promise-IsFresh c s f)

-- After any history of fewer than 2^64 calls from the start on, with a callback set, the registry is
-- as its users are promised: it holds under each id the connection that the history leaves under it,
-- its counter is the number of connections there have been, and the callback ran once for each
-- change. The next connection gets the next number for its id; neither it nor a later number is in
-- use.
pub registry_refines :
    (cs : List Call) (name addr : String) (now : ℕ)
    → length cs + 1 < 2 ^ 64
    → let s = replay promise no_connections cs in
      let r = replay perform (set_on_change true new_client_registry) cs in
      ((id : ℕ) → lookup id r.clients ≡ s.connected id)
      × (r.next_id ≡ s.count)
      × (r.notified ≡ s.changes)
      × ((register name addr now r).1 ≡ suc s.count)
      × ((id : ℕ) → suc s.count ≤ id → s.connected id ≡ none)
unfolding register set_on_change new_client_registry lookup
registry_refines cs name addr now room =
    let k =
      replay-Keeps cs no_connections (set_on_change true new_client_registry) (omega arith)
        (record { shown = λ id. refl; counted = refl; heard = refl; notified = refl }) in
    let small = count-le cs no_connections in
    (
      k.shown,
      k.counted,
      k.notified,
      omega (arith, k.counted),
      IsFresh-replay cs no_connections (λ id h. refl),
    )
