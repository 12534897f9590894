-- ===== src/NetInfo/Numbers.antt =====
-- server/netinfo.go: how many addresses go where.
use remote_mouse.Common.{
  ℕ, suc, ◌+◌, Bool, false, not, ◌&&◌, Option, none, some, List, [], ◌∷◌, ◌++◌, ◌≡◌, arith,
  if◌then◌else◌,
}
use remote_mouse.NetInfo.{
  Ipv4, IfaceAddrs, routable, sort_addr, sort_addrs, sort_ifaces, is_virtual_name, is_private,
}

-- How many of the addresses pass a test.
abbrev pub number {ℓ} : {A : Type ℓ} → (A → Bool) → List A → ℕ
number p [] = 0
number p (a ∷ l) = let rest = number p l in if p a then suc rest else rest

pub number-append {ℓ} :
    {A : Type ℓ} (p : A → Bool) (l r : List A) → number p (l ++ r) ≡ number p l + number p r
number-append p [] r = omega arith
number-append p (a ∷ l) r = ground (arith, number-append p l r)

-- The address that an interface's bytes are, if the phone can reach it.
abbrev pub passes : (Ipv4 → Bool) → Option Ipv4 → Bool
passes p none = false
passes p (some v) = p v

-- The addresses of the usable interfaces, counted one by one.
abbrev pub number_usable : (Bool → Ipv4 → Bool) → List IfaceAddrs → ℕ
number_usable p [] = 0
number_usable p (f ∷ fs) =
    let rest = number_usable p fs in
    if f.up && not f.loop
    then number (λ ip. passes (p (is_virtual_name f.name)) (routable ip)) f.addrs + rest
    else rest

-- An address of a LAN, on an adapter that is not virtual.
abbrev pub is_lan : Bool → Ipv4 → Bool
is_lan virt v = not virt && is_private v

number-sort_addr :
    (q : Ipv4 → Bool) (virt : Bool) (o : Option Ipv4) (phys others : List Ipv4)
    → let (phys', others') = sort_addr virt o (phys, others) in
      (number q phys' ≡ number q phys + (if passes (λ v. q v && is_lan virt v) o then 1 else 0))
      × (number q others'
          ≡ number q others + (if passes (λ v. q v && not (is_lan virt v)) o then 1 else 0))
number-sort_addr q virt none phys others = (omega arith, omega arith)
number-sort_addr q virt (some v) phys others =
    ground (arith, number-append q phys (v ∷ []), number-append q others (v ∷ []))

number-sort_addrs :
    (q : Ipv4 → Bool) (virt : Bool) (ips : List (List ℕ)) (phys others : List Ipv4)
    → let (phys', others') = sort_addrs virt ips (phys, others) in
      (number q phys'
        ≡ number q phys + number (λ ip. passes (λ v. q v && is_lan virt v) (routable ip)) ips)
      × (number q others'
          ≡ number q others
            + number (λ ip. passes (λ v. q v && not (is_lan virt v)) (routable ip)) ips)
unfolding sort_addrs
number-sort_addrs q virt [] phys others = (omega arith, omega arith)
number-sort_addrs q virt (ip ∷ ips) phys others =
    let (p', o') = sort_addr virt (routable ip) (phys, others) in
    let one = number-sort_addr q virt (routable ip) phys others in
    let rest = number-sort_addrs q virt ips p' o' in
    (ground (arith, one.0, rest.0), ground (arith, one.1, rest.1))

pub number-sort_ifaces :
    (q : Ipv4 → Bool) (fs : List IfaceAddrs) (phys others : List Ipv4)
    → let (phys', others') = sort_ifaces fs (phys, others) in
      (number q phys' ≡ number q phys + number_usable (λ virt v. q v && is_lan virt v) fs)
      × (number q others'
          ≡ number q others + number_usable (λ virt v. q v && not (is_lan virt v)) fs)
unfolding sort_ifaces
number-sort_ifaces q [] phys others = (omega arith, omega arith)
number-sort_ifaces q (f ∷ fs) phys others =
    let (p', o') = sort_addrs (is_virtual_name f.name) f.addrs (phys, others) in
    ground (
      arith,
      number-sort_ifaces q fs phys others,
      number-sort_ifaces q fs p' o',
      number-sort_addrs q (is_virtual_name f.name) f.addrs phys others,
    )
