-- ===== src/Clients/Registry.antt =====
-- server/clients.go: what the methods do to the set of connections.
use remote_mouse.Common.{
  ℕ, suc, ◌+◌, ◌≤◌, ◌<◌, ◌%◌, ◌^◌, String, none, some, List, [], ◌∷◌, ◌≡◌, refl, All, arith, ◌==◌,
  if◌then◌else◌,
}
use remote_mouse.Clients.{
  Client, ClientRegistry, new_client_registry, insert, lookup, delete, register, deregister,
  is_there,
}

module _ {ℓ} {V : Type ℓ} where
  pub lookup-insert :
      (id : ℕ) (new : V) (other : ℕ) (entries : List (ℕ × V))
      → lookup other (insert id new entries)
        ≡ (if id == other then some new else lookup other entries)
  unfolding insert lookup
  lookup-insert id new other [] = refl
  lookup-insert id new other (e ∷ entries) = ground (arith, lookup-insert id new other entries)

  pub lookup-delete :
      (k j : ℕ) (m : List (ℕ × V)) → lookup j (delete k m) ≡ (if k == j then none else lookup j m)
  unfolding lookup delete
  lookup-delete k j [] = ground arith
  lookup-delete k j ((i, w) ∷ m) = ground (arith, lookup-delete k j m)

  abbrev pub KeysUpTo : ℕ → List (ℕ × V) → Type 0
  KeysUpTo n m = All (λ kv. kv.0 ≤ n) m

  pub KeysUpTo-insert :
      (n k : ℕ) (v : V) (m : List (ℕ × V)) → k ≤ n → KeysUpTo n m → KeysUpTo n (insert k v m)
  unfolding insert
  KeysUpTo-insert n k v [] h a = (h, tt)
  KeysUpTo-insert n k v ((j, w) ∷ m) h a = ground (arith, KeysUpTo-insert n k v m h a.1)

  pub KeysUpTo-delete : (n k : ℕ) (m : List (ℕ × V)) → KeysUpTo n m → KeysUpTo n (delete k m)
  unfolding delete
  KeysUpTo-delete n k [] a = tt
  KeysUpTo-delete n k ((j, w) ∷ m) a = ground (arith, KeysUpTo-delete n k m a.1)

  pub KeysUpTo-mono : (n p : ℕ) (m : List (ℕ × V)) → n ≤ p → KeysUpTo n m → KeysUpTo p m
  KeysUpTo-mono n p [] h a = tt
  KeysUpTo-mono n p ((j, w) ∷ m) h a = (omega arith, KeysUpTo-mono n p m h a.1)

  pub lookup_above : (n k : ℕ) (m : List (ℕ × V)) → KeysUpTo n m → n < k → lookup k m ≡ none
  unfolding lookup
  lookup_above n k [] a h = refl
  lookup_above n k ((j, w) ∷ m) a h = ground (arith, lookup_above n k m a.1 h)

-- Ids are handed out in order, and the 64-bit counter has not run out.
pub record IsSound (r : ClientRegistry) : Type 0 where
  pub used : KeysUpTo r.next_id r.clients
  pub bounded : r.next_id < 2 ^ 64

new_client_registry-IsSound : IsSound new_client_registry
unfolding new_client_registry
new_client_registry-IsSound = record { used = tt; bounded = omega arith }

-- Ids stay below the counter under `Register` while the counter has a value left.
pub register-IsSound :
    (name addr : String) (now : ℕ) (r : ClientRegistry)
    → r.next_id + 1 < 2 ^ 64
    → IsSound r
    → IsSound (register name addr now r).0
unfolding register
register-IsSound name addr now r room v =
    let id : ℕ = r.next_id + 1 in
    let c : Client = record { name = name; addr = addr; since = now; seq = id } in
    ground (arith, KeysUpTo-insert id id c r.clients, KeysUpTo-mono r.next_id id r.clients)

pub deregister-IsSound : (id : ℕ) (r : ClientRegistry) → IsSound r → IsSound (deregister id r)
unfolding deregister
deregister-IsSound id r v = ground (arith, KeysUpTo-delete r.next_id id r.clients)

-- In a sound registry whose 64-bit counter does not overflow, a registration gets an id that no
-- connection has, adds that connection with its name, address and time and touches no other; the
-- callback runs once if it is set.
pub register_fresh :
    (name addr : String) (now : ℕ) (r : ClientRegistry)
    → r.next_id + 1 < 2 ^ 64
    → IsSound r
    → let (r', id) = register name addr now r in
      (lookup id r.clients ≡ none)
      × ((j : ℕ)
          → lookup j r'.clients ≡ (
              if id == j
              then some (record { name = name; addr = addr; since = now; seq = id })
              else lookup j r.clients))
      × (r'.notified ≡ (if r.on_change then suc r.notified else r.notified))
unfolding register
register_fresh name addr now r room v =
    let id : ℕ = (r.next_id + 1) % 2 ^ 64 in
    let c : Client = record { name = name; addr = addr; since = now; seq = id } in
    (
      lookup_above r.next_id id r.clients v.used (omega arith),
      λ j. ground (arith, lookup-insert id c j r.clients),
      ground arith,
    )

-- Deregistering removes the connection of that id and no other, keeps the counter, and runs the
-- callback only if there was such a connection and a callback is set.
pub deregister_exact :
    (id : ℕ) (r : ClientRegistry)
    → let r' = deregister id r in
      ((j : ℕ) → lookup j r'.clients ≡ (if id == j then none else lookup j r.clients))
      × (r'.next_id ≡ r.next_id)
      × (r'.notified ≡ (
          if is_there (lookup id r.clients)
          then (if r.on_change then suc r.notified else r.notified)
          else r.notified))
unfolding deregister
deregister_exact id r =
    (λ j. ground (arith, lookup-delete id j r.clients), ground arith, ground arith)
