-- ===== src/NetInfo/Choice.antt =====
-- server/netinfo.go with server/serve.go: what the chosen addresses are.
use remote_mouse.Common.{
  ℕ, ◌+◌, ◌≤◌, Bool, true, false, not, ◌&&◌, Option, none, some, List, [], ◌∷◌, ◌≡◌, ◌≢◌, refl,
  arith, if◌then◌else◌, keep_if, Bool-cases, Option-cases, inl, inr, All,
}
use remote_mouse.NetInfo.{
  Ipv4, HostIps, IfaceAddrs, routable, sort_ifaces, choose, pick_ips, is_virtual_name, is_private,
  has_routable_v4, keep_announce_iface, announce_ifaces, or_all,
}
use remote_mouse.NetInfo.Numbers.{
  number, number-append, passes, number_usable, is_lan, number-sort_ifaces,
}

-- What the panel shows, the recommended address first.
abbrev pub shown : HostIps → List Ipv4
shown ips = elim ips.primary [ none ↦ ips.secondary | some v ↦ v ∷ ips.secondary ]

number-split :
    (q : Ipv4 → Bool) (virt : Bool) (ips : List (List ℕ))
    → number (λ ip. passes (λ v. q v && is_lan virt v) (routable ip)) ips
        + number (λ ip. passes (λ v. q v && not (is_lan virt v)) (routable ip)) ips
      ≡ number (λ ip. passes q (routable ip)) ips
number-split q virt [] = omega arith
number-split q virt (ip ∷ ips) = ground (arith, one (routable ip), number-split q virt ips)
  where
    one :
        (o : Option Ipv4)
        → (if passes (λ v. q v && is_lan virt v) o then 1 else 0)
            + (if passes (λ v. q v && not (is_lan virt v)) o then 1 else 0)
          ≡ (if passes q o then 1 else 0)
    one none = omega arith
    one (some v) = ground arith

number_usable-split :
    (q : Ipv4 → Bool) (fs : List IfaceAddrs)
    → number_usable (λ virt v. q v && is_lan virt v) fs
        + number_usable (λ virt v. q v && not (is_lan virt v)) fs
      ≡ number_usable (λ virt v. q v) fs
number_usable-split q [] = omega arith
number_usable-split q (f ∷ fs) =
    ground (arith, number-split q (is_virtual_name f.name) f.addrs, number_usable-split q fs)

number-shown :
    (q : Ipv4 → Bool) (phys others : List Ipv4)
    → number q (shown (choose (phys, others))) ≡ number q phys + number q others
number-shown q [] [] = omega arith
number-shown q [] (o ∷ others) = omega arith
number-shown q (p ∷ phys) others = ground (arith, number-append q phys others)

-- The panel shows each routable IPv4 address of each interface that is up and no loopback, as often
-- as the interfaces have it, and shows nothing else: for any test, as many of the shown addresses
-- pass it as of those of the interfaces.
pub pick_ips_complete :
    (q : Ipv4 → Bool) (fs : List IfaceAddrs)
    → number q (shown (pick_ips fs)) ≡ number_usable (λ virt v. q v) fs
unfolding pick_ips
pick_ips_complete q fs =
    let (phys, others) = sort_ifaces fs ([], []) in
    omega
      (arith, number-shown q phys others, number-sort_ifaces q fs [] [], number_usable-split q fs)

All-passes :
    (q : Ipv4 → Bool) (l : List Ipv4) → number (λ v. not (q v)) l ≡ 0 → All (λ v. q v ≡ true) l
All-passes q [] h = tt
All-passes q (v ∷ l) h = ground (arith, All-passes q l)

number-none :
    (virt : Bool) (ips : List (List ℕ))
    → number (λ ip. passes (λ v. not (is_private v) && is_lan virt v) (routable ip)) ips ≡ 0
number-none virt [] = refl
number-none virt (ip ∷ ips) = ground (arith, one (routable ip), number-none virt ips)
  where
    one : (o : Option Ipv4) → passes (λ v. not (is_private v) && is_lan virt v) o ≡ false
    one none = refl
    one (some v) = ground arith

number_usable-none :
    (fs : List IfaceAddrs) → number_usable (λ virt v. not (is_private v) && is_lan virt v) fs ≡ 0
number_usable-none [] = refl
number_usable-none (f ∷ fs) =
    ground (arith, number-none (is_virtual_name f.name) f.addrs, number_usable-none fs)

primary_of :
    (phys others : List Ipv4)
    → 1 ≤ number (λ v. true) phys
    → All (λ v. is_private v ≡ true) phys
    → (v : Ipv4) × ((choose (phys, others)).primary ≡ some v) × (is_private v ≡ true)
primary_of [] others h k = absurd (omega arith)
primary_of (p ∷ phys) others h k = (p, refl, k.0)

-- If any interface that is up, no loopback and not virtual has a private address, then the
-- recommended address is a private one.
pub pick_ips_prefers_lan :
    (fs : List IfaceAddrs)
    → 1 ≤ number_usable (λ virt v. true && is_lan virt v) fs
    → (v : Ipv4) × ((pick_ips fs).primary ≡ some v) × (is_private v ≡ true)
unfolding pick_ips
pick_ips_prefers_lan fs h =
    let (phys, others) = sort_ifaces fs ([], []) in
    primary_of phys others (omega (arith, number-sort_ifaces (λ v. true) fs [] [])) (
      All-passes is_private phys (
        omega
          (arith, number-sort_ifaces (λ v. not (is_private v)) fs [] [], number_usable-none fs)))

has_routable-number :
    (ips : List (List ℕ))
    → has_routable_v4 ips ≡ true
    → 1 ≤ number (λ ip. passes (λ v. true) (routable ip)) ips
unfolding has_routable_v4
has_routable-number [] h = cc
has_routable-number (ip ∷ ips) h = elim (Option-cases (routable ip)) [
  | inl e ↦ ground (arith, has_routable-number ips)
  | inr (v, e) ↦ ground arith
]

kept-number :
    (fs : List IfaceAddrs) (g : IfaceAddrs) (gs : List IfaceAddrs)
    → keep_if keep_announce_iface fs ≡ g ∷ gs
    → 1 ≤ number_usable (λ virt v. true) fs
unfolding keep_announce_iface
kept-number [] g gs e = cc
kept-number (f ∷ fs) g gs e = elim (Bool-cases (keep_announce_iface f)) [
  | inl k ↦ ground (arith, has_routable-number f.addrs)
  | inr k ↦ ground (arith, kept-number fs g gs)
]

primary_none :
    (q : List Ipv4 × List Ipv4)
    → (choose q).primary ≡ none
    → number (λ v. true) (shown (choose q)) ≡ 0
primary_none (p ∷ phys, others) e = cc
primary_none ([], o ∷ others) e = cc
primary_none ([], []) e = refl

-- If the announcement is restricted to certain interfaces, then the panel recommends an address:
-- where the phone can find the computer by an announcement on chosen interfaces, the panel has an
-- address to show.
pub announced_has_address :
    (fs gs : List IfaceAddrs) → announce_ifaces (some fs) ≡ some gs → (pick_ips fs).primary ≢ none
unfolding announce_ifaces pick_ips
announced_has_address fs gs e z = go (keep_if keep_announce_iface fs) refl e
  where
    go : (l : List IfaceAddrs) → keep_if keep_announce_iface fs ≡ l → or_all l ≡ some gs → ⊥
    go [] p h = cc
    go (g ∷ l) p h = absurd (
        omega (
          arith,
          kept-number fs g l p,
          pick_ips_complete (λ v. true) fs,
          primary_none (sort_ifaces fs ([], [])) z,
        ))
