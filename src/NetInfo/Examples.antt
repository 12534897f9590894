-- ===== src/NetInfo/Examples.antt =====
-- Tests and instances for server/netinfo.go and server/serve.go.
use remote_mouse.Common.{◌≤◌, true, false, ◌&&◌, some, List, [], ◌∷◌, ◌≡◌, refl, arith}
use remote_mouse.NetInfo.{
  IfaceAddrs, pick_ips, is_private, announce_ifaces, keep_announce_iface, is_virtual_name,
  has_routable_v4, routable, to4, is_loopback, is_link_local_unicast, sort_ifaces, sort_addrs,
}
use remote_mouse.NetInfo.Numbers.{number, number_usable, is_lan}
use remote_mouse.NetInfo.Choice.{shown, pick_ips_complete}

-- A LAN adapter whose second address is self-assigned, and a virtual one.
abbrev ethernet : IfaceAddrs
ethernet = record {
  name = "Ethernet";
  up = true;
  loop = false;
  addrs = (192 ∷ 168 ∷ 1 ∷ 7 ∷ []) ∷ (169 ∷ 254 ∷ 3 ∷ 4 ∷ []) ∷ [];
}

abbrev wsl : IfaceAddrs
wsl = record {
  name = "vEthernet (WSL)";
  up = true;
  loop = false;
  addrs = (172 ∷ 20 ∷ 0 ∷ 1 ∷ []) ∷ [];
}

abbrev two_adapters : List IfaceAddrs
two_adapters = wsl ∷ ethernet ∷ []

pick-two_adapters : pick_ips two_adapters ≡ record {
  primary = some (record { b0 = 192; b1 = 168; b2 = 1; b3 = 7 });
  secondary = record { b0 = 172; b1 = 20; b2 = 0; b3 = 1 } ∷ [];
}
unfolding pick_ips sort_ifaces sort_addrs routable to4 is_loopback is_link_local_unicast is_private
    is_virtual_name
pick-two_adapters = refl

pick_ips_complete_example :
    number is_private (shown (pick_ips two_adapters))
    ≡ number_usable (λ virt v. is_private v) two_adapters
pick_ips_complete_example = pick_ips_complete is_private two_adapters

has_lan : 1 ≤ number_usable (λ virt v. true && is_lan virt v) two_adapters
unfolding routable to4 is_loopback is_link_local_unicast is_private is_virtual_name
has_lan = omega arith

announce-two_adapters : announce_ifaces (some two_adapters) ≡ some (ethernet ∷ [])
unfolding announce_ifaces keep_announce_iface has_routable_v4 routable to4 is_loopback
    is_link_local_unicast is_virtual_name
announce-two_adapters = refl
