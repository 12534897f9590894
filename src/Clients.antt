-- ===== src/Clients.antt =====
-- server/clients.go: the registry of connected devices. The lock makes each method one step; a map
-- is an association list in some order of iteration, and the change callback is counted.
pub mod Order
pub mod Registry
pub mod Refinement
mod Examples
use remote_mouse.Common.{
  ℕ, suc, ◌+◌, ◌%◌, ◌^◌, String, Bool, true, false, ◌&&◌, Option, none, some, List, [], ◌∷◌, map,
  ltb, ◌==◌, if◌then◌else◌,
}

pub record Client : Type 0 where
  pub name : String
  pub addr : String
  pub since : ℕ
  pub seq : ℕ

pub record ClientRegistry : Type 0 where
  pub clients : List (ℕ × Client)
  pub next_id : ℕ
  pub on_change : Bool
  pub notified : ℕ

unfoldable pub new_client_registry : ClientRegistry
new_client_registry = record { clients = []; next_id = 0; on_change = false; notified = 0 }

module _ {ℓ} {V : Type ℓ} where
  -- m[k] = v
  unfoldable pub insert : ℕ → V → List (ℕ × V) → List (ℕ × V)
  insert id v [] = (id, v) ∷ []
  insert id v ((other, old) ∷ rest) =
      let later = insert id v rest in if other == id then (id, v) ∷ rest else (other, old) ∷ later

  -- m[k], and whether it is there.
  unfoldable pub lookup : ℕ → List (ℕ × V) → Option V
  lookup k [] = none
  lookup k ((j, w) ∷ m) = let rest = lookup k m in if j == k then some w else rest

  -- delete(m, k)
  unfoldable pub delete : ℕ → List (ℕ × V) → List (ℕ × V)
  delete k [] = []
  delete k ((j, w) ∷ m) = let rest = delete k m in if j == k then rest else (j, w) ∷ rest

unfoldable pub notify : ClientRegistry → ClientRegistry
notify r = if r.on_change then record r { notified = suc r.notified } else r

unfoldable pub set_on_change : Bool → ClientRegistry → ClientRegistry
set_on_change f r = record r { on_change = f }

-- `now` is the clock at the call. The counter is a uint64.
unfoldable pub register : String → String → ℕ → ClientRegistry → ClientRegistry × ℕ
unfolding notify
register name addr now r =
    let id = (r.next_id + 1) % 2 ^ 64 in
    let c : Client = record { name = name; addr = addr; since = now; seq = id } in
    (notify (record r { next_id = id; clients = insert id c r.clients }), id)

abbrev pub is_there : Option Client → Bool
is_there none = false
is_there (some c) = true

unfoldable pub deregister : ℕ → ClientRegistry → ClientRegistry
unfolding notify
deregister id r =
    let r' : ClientRegistry = record r { clients = delete id r.clients } in
    if is_there (lookup id r.clients) then notify r' else r'

-- The order that `Snapshot` hands to sort.Slice.
unfoldable pub less : Client → Client → Bool
less a b = if a.since == b.since then ltb a.seq b.seq else ltb a.since b.since

insert_sorted : Client → List Client → List Client
insert_sorted c [] = c ∷ []
insert_sorted c (d ∷ ds) =
    let rest = insert_sorted c ds in if less d c then d ∷ rest else c ∷ d ∷ ds

-- sort.Slice, which sorts in place by the order that it is given.
sort_clients : List Client → List Client
sort_clients [] = []
sort_clients (c ∷ cs) = insert_sorted c (sort_clients cs)

abbrev pub values : List (ℕ × Client) → List Client
values = map (λ kv. kv.1)

unfoldable pub snapshot : ClientRegistry → List Client
unfolding sort_clients insert_sorted less
snapshot r = sort_clients (values r.clients)
