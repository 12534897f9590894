-- ===== src/Clients/Order.antt =====
-- server/clients.go: the order of a snapshot.
use mathlib.Core.List.{Perm}
use mathlib.Core.List.Perm
use remote_mouse.Common.{
  ◌≤◌, ◌<◌, true, false, ◌⊎◌, inl, inr, List, [], ◌∷◌, ◌≡◌, arith, Bool-cases, All,
}
use remote_mouse.Clients.{
  Client, ClientRegistry, less, insert_sorted, sort_clients, values, snapshot,
}

-- Connected earlier, or at the same time and registered no later.
abbrev pub Before : Client → Client → Type 0
Before a b = (a.since < b.since) ⊎ ((a.since ≡ b.since) × (a.seq ≤ b.seq))

abbrev pub IsOrdered : List Client → Type 0
IsOrdered [] = Unit
IsOrdered (c ∷ cs) = All (Before c) cs × IsOrdered cs

Before-trans : (a b c : Client) → Before a b → Before b c → Before a c
Before-trans a b c h k = grind arith

All-Before : (a b : Client) (cs : List Client) → Before a b → All (Before b) cs → All (Before a) cs
All-Before a b [] h k = tt
All-Before a b (c ∷ cs) h k = (Before-trans a b c h k.0, All-Before a b cs h k.1)

less-Before : (a b : Client) → less a b ≡ true → Before a b
unfolding less
less-Before a b h = ground arith

not_less-Before : (a b : Client) → less b a ≡ false → Before a b
unfolding less
not_less-Before a b h = ground arith

All-insert_sorted :
    (a c : Client) (cs : List Client)
    → Before a c
    → All (Before a) cs
    → All (Before a) (insert_sorted c cs)
unfolding insert_sorted
All-insert_sorted a c [] h k = (h, tt)
All-insert_sorted a c (d ∷ ds) h k = elim (Bool-cases (less d c)) [
  | inl e ↦ rw e (k.0, All-insert_sorted a c ds h k.1)
  | inr e ↦ rw e (h, k)
]

insert_sorted-IsOrdered :
    (c : Client) (cs : List Client) → IsOrdered cs → IsOrdered (insert_sorted c cs)
unfolding insert_sorted
insert_sorted-IsOrdered c [] h = (tt, tt)
insert_sorted-IsOrdered c (d ∷ ds) h = elim (Bool-cases (less d c)) [
  | inl e ↦
      rw e (All-insert_sorted d c ds (less-Before d c e) h.0, insert_sorted-IsOrdered c ds h.1)
  | inr e ↦ let b : Before c d = not_less-Before c d e in rw e ((b, All-Before c d ds b h.0), h)
]

insert_sorted-perm : (c : Client) (cs : List Client) → Perm (insert_sorted c cs) (c ∷ cs)
unfolding insert_sorted
insert_sorted-perm c [] = Perm.refl _
insert_sorted-perm c (d ∷ ds) = elim (Bool-cases (less d c)) [
  | inl e ↦ rw e (Perm.trans (Perm.cons d (insert_sorted-perm c ds)) (Perm.swap c d ds))
  | inr e ↦ rw e (Perm.refl _)
]

sort-IsOrdered : (cs : List Client) → IsOrdered (sort_clients cs)
unfolding sort_clients
sort-IsOrdered [] = tt
sort-IsOrdered (c ∷ cs) = insert_sorted-IsOrdered c (sort_clients cs) (sort-IsOrdered cs)

sort-perm : (cs : List Client) → Perm (sort_clients cs) cs
unfolding sort_clients
sort-perm [] = Perm.refl _
sort-perm (c ∷ cs) =
    Perm.trans (insert_sorted-perm c (sort_clients cs)) (Perm.cons c (sort-perm cs))

-- A snapshot holds exactly the registered connections, each as often as the map does, whatever the
-- order in which the map is walked, and lists them from the oldest to the newest, those of one
-- instant by their order of registration.
pub snapshot_sorted :
    (r : ClientRegistry) → Perm (snapshot r) (values r.clients) × IsOrdered (snapshot r)
unfolding snapshot
snapshot_sorted r = (sort-perm (values r.clients), sort-IsOrdered (values r.clients))
