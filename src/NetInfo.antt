-- ===== src/NetInfo.antt =====
-- server/netinfo.go and the interface choice of server/serve.go: which addresses the panel shows and
-- which interfaces carry the announcement. An address is a list of bytes, as net.IP is; a shown
-- address stands for its dotted text. What net.Interfaces answers is an argument, none if it fails.
pub mod Choice
pub mod Numbers
mod Examples
use Prim.Native.Char.{code as code_point}
use remote_mouse.Common.{
  ℕ, zero, suc, ◌+◌, ◌==◌, String, Bool, true, false, not, ◌||◌, ◌&&◌, Option, none, some, List, [],
  ◌∷◌, ◌++◌, map, if◌then◌else◌, leb, any_of, keep_if,
}

-- The four bytes of an IPv4 address.
pub record Ipv4 : Type 0 where
  pub b0 : ℕ
  pub b1 : ℕ
  pub b2 : ℕ
  pub b3 : ℕ

abbrev pub all_zero : ℕ → List ℕ → Option (List ℕ)
all_zero zero bs = some bs
all_zero (suc n) [] = none
all_zero (suc n) (b ∷ bs) = let rest = all_zero n bs in if b == 0 then rest else none

abbrev pub four_bytes : List ℕ → Option Ipv4
four_bytes (b0 ∷ b1 ∷ b2 ∷ b3 ∷ []) = some (record { b0 = b0; b1 = b1; b2 = b2; b3 = b3 })
four_bytes _ = none

-- The four bytes after ten zeros and two 0xff.
abbrev pub mapped : Option (List ℕ) → Option Ipv4
mapped none = none
mapped (some []) = none
mapped (some (a ∷ [])) = none
mapped (some (a ∷ b ∷ bs)) = let v = four_bytes bs in if a == 0xff && b == 0xff then v else none

-- ip.To4(), on four bytes or on sixteen of which the last four are a mapped IPv4 address.
unfoldable pub to4 : List ℕ → Option Ipv4
to4 ip = elim (four_bytes ip) [ some v ↦ some v | none ↦ mapped (all_zero 10 ip) ]

unfoldable pub is_loopback : Ipv4 → Bool
is_loopback v = v.b0 == 127

unfoldable pub is_link_local_unicast : Ipv4 → Bool
is_link_local_unicast v = v.b0 == 169 && v.b1 == 254

unfoldable pub is_private : Ipv4 → Bool
is_private v =
    v.b0 == 10 || (v.b0 == 172 && leb 16 v.b1 && leb v.b1 31) || (v.b0 == 192 && v.b1 == 168)

pub record HostIps : Type 0 where
  pub primary : Option Ipv4
  pub secondary : List Ipv4

-- `up` and `loop` are read off the flags.
pub record IfaceAddrs : Type 0 where
  pub name : String
  pub up : Bool
  pub loop : Bool
  pub addrs : List (List ℕ)

abbrev pub virtual_keywords : List String
virtual_keywords =
    "vethernet" ∷ "hyper-v" ∷ "vmware" ∷ "virtualbox" ∷ "vbox" ∷ "loopback" ∷ "bluetooth" ∷ "wsl"
    ∷ "tailscale" ∷ "docker" ∷ "tun" ∷ "tap" ∷ []

-- strings.ToLower, as far as the keywords see it: the other characters that have a lower case keep
-- to the characters that no keyword has.
abbrev pub lower : ℕ → ℕ
lower c =
    if leb 65 c && leb c 90
    then c + 32
    else if c == 0x212a
    then 107
    else if c == 0x130
    then 105
    else c

abbrev pub to_lower : String → List ℕ
to_lower String.[] = []
to_lower (String.◌∷◌ c s) = lower (code_point c) ∷ to_lower s

abbrev pub starts_with : List ℕ → String → Bool
starts_with l String.[] = true
starts_with [] (String.◌∷◌ c s) = false
starts_with (d ∷ l) (String.◌∷◌ c s) =
    let rest = starts_with l s in if d == code_point c then rest else false

-- strings.Contains.
abbrev pub contains_text : List ℕ → String → Bool
contains_text [] k = starts_with [] k
contains_text (d ∷ l) k =
    let rest = contains_text l k in if starts_with (d ∷ l) k then true else rest

unfoldable pub is_virtual_name : String → Bool
is_virtual_name name = any_of (contains_text (to_lower name)) virtual_keywords

abbrev pub usable : Option Ipv4 → Option Ipv4
usable none = none
usable (some v) = if is_loopback v || is_link_local_unicast v then none else some v

-- An IPv4 address that is neither loopback nor link-local.
unfoldable pub routable : List ℕ → Option Ipv4
routable ip = usable (to4 ip)

-- One address, if it is routable, on to one of the two lists.
abbrev pub sort_addr : Bool → Option Ipv4 → List Ipv4 × List Ipv4 → List Ipv4 × List Ipv4
sort_addr virt none ls = ls
sort_addr virt (some v) (phys, others) =
    if not virt && is_private v then (phys ++ v ∷ [], others) else (phys, others ++ v ∷ [])

unfoldable pub sort_addrs : Bool → List (List ℕ) → List Ipv4 × List Ipv4 → List Ipv4 × List Ipv4
sort_addrs virt [] ls = ls
sort_addrs virt (ip ∷ ips) ls = sort_addrs virt ips (sort_addr virt (routable ip) ls)

unfoldable pub sort_ifaces : List IfaceAddrs → List Ipv4 × List Ipv4 → List Ipv4 × List Ipv4
sort_ifaces [] ls = ls
sort_ifaces (f ∷ fs) ls =
    let skip = sort_ifaces fs ls in
    let take = sort_ifaces fs (sort_addrs (is_virtual_name f.name) f.addrs ls) in
    if not f.up || f.loop then skip else take

abbrev pub choose : List Ipv4 × List Ipv4 → HostIps
choose (p ∷ phys, others) = record { primary = some p; secondary = phys ++ others }
choose ([], o ∷ others) = record { primary = some o; secondary = others }
choose ([], []) = record { primary = none; secondary = [] }

unfoldable pub pick_ips : List IfaceAddrs → HostIps
pick_ips ifaces = choose (sort_ifaces ifaces ([], []))

abbrev pub detect_ips : Option (List IfaceAddrs) → HostIps
detect_ips none = record { primary = none; secondary = [] }
detect_ips (some list) = pick_ips list

abbrev pub is_some {ℓ} : {A : Type ℓ} → Option A → Bool
is_some none = false
is_some (some a) = true

unfoldable pub has_routable_v4 : List (List ℕ) → Bool
has_routable_v4 [] = false
has_routable_v4 (ip ∷ ips) =
    let rest = has_routable_v4 ips in if is_some (routable ip) then true else rest

unfoldable pub keep_announce_iface : IfaceAddrs → Bool
keep_announce_iface f =
    f.up && not f.loop && not (is_virtual_name f.name) && has_routable_v4 f.addrs

abbrev pub or_all : List IfaceAddrs → Option (List IfaceAddrs)
or_all [] = none
or_all fs = some fs

-- None stands for the nil list, on which every interface is used.
unfoldable pub announce_ifaces : Option (List IfaceAddrs) → Option (List IfaceAddrs)
announce_ifaces none = none
announce_ifaces (some list) = or_all (keep_if keep_announce_iface list)
