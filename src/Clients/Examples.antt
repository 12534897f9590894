-- ===== src/Clients/Examples.antt =====
-- Tests and instances for server/clients.go.
use mathlib.Core.List.{Perm}
use remote_mouse.Common.{ℕ, suc, ◌≤◌, List, none, true, [], ◌∷◌, ◌≡◌, refl, arith}
use remote_mouse.Clients.{
  Client, ClientRegistry, register, lookup, snapshot, set_on_change, new_client_registry,
}
use remote_mouse.Clients.Registry.{IsSound}
use remote_mouse.Clients.Refinement.{
  Call, connect, disconnect, promise, perform, no_connections, replay, registry_refines,
}
use remote_mouse.Clients.Order.{snapshot_sorted, IsOrdered}

abbrev phone : Client
phone = record { name = "phone"; addr = "192.168.1.7"; since = 50; seq = 1 }

abbrev pad : Client
pad = record { name = "pad"; addr = "192.168.1.8"; since = 50; seq = 2 }

abbrev two_online : ClientRegistry
two_online = record {
  clients = (2, pad) ∷ (1, phone) ∷ [];
  next_id = 2;
  on_change = true;
  notified = 2;
}

two_online-IsSound : IsSound two_online
two_online-IsSound = omega arith

snapshot-two_online : snapshot two_online ≡ phone ∷ pad ∷ []
unfolding snapshot
snapshot-two_online = refl

snapshot_sorted_example :
    Perm (snapshot two_online) (pad ∷ phone ∷ []) × IsOrdered (snapshot two_online)
snapshot_sorted_example = snapshot_sorted two_online

-- Two devices connect, and the first one leaves.
abbrev morning : List Call
morning = connect "phone" "10.0.0.7" 40 ∷ connect "pad" "10.0.0.8" 41 ∷ disconnect 1 ∷ []

registry_refines_example :
    let s = replay promise no_connections morning in
    let r = replay perform (set_on_change true new_client_registry) morning in
    ((id : ℕ) → lookup id r.clients ≡ s.connected id)
    × (r.next_id ≡ s.count)
    × (r.notified ≡ s.changes)
    × ((register "tv" "10.0.0.2" 60 r).1 ≡ suc s.count)
    × ((id : ℕ) → suc s.count ≤ id → s.connected id ≡ none)
registry_refines_example = registry_refines morning "tv" "10.0.0.2" 60 (omega arith)
