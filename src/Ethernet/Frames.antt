-- ===== src/Ethernet/Frames.antt =====
-- `EthernetUtils::GenerateUDP` (socket/EthernetUtils.cpp), `GenerateARPv4` and
-- `GenerateGratuitousARPv4` (socket/EthernetUtils.h).
pub mod Wire
use na62_farm_lib_networking.Base.{
  ℕ, List, ◌++◌, Option, none, some, true, htons, take, drop, replicate,
}
use na62_farm_lib_networking.Memory.{Heap, DataContainer, new_array}
use na62_farm_lib_networking.Network.{
  UdpHdr, ArpHdr, eth_alen, ip_df, sizeof_arp_hdr, arp_hdr_bytes,
}

abbrev pub ethertype_ip : ℕ
ethertype_ip = 0x0800

abbrev pub ethertype_arp : ℕ
ethertype_arp = 0x0806

abbrev pub ipproto_udp : ℕ
ipproto_udp = 17

abbrev pub arphrd_ether : ℕ
arphrd_ether = 1

abbrev pub arpop_request : ℕ
arpop_request = 1

-- `NetworkHandler::GetMyMac()` and `GetMyIP()`.
pub record MyAddress : Type 0 where
  pub my_mac : List ℕ
  pub my_ip : ℕ

pub fill_udp : MyAddress → UdpHdr → List ℕ → ℕ → ℕ → ℕ → UdpHdr
fill_udp me hdr d_mac_addr d_ip s_port d_port = record {
  eth = record {
    ether_dhost = take eth_alen d_mac_addr;
    ether_shost = take eth_alen me.my_mac;
    ether_type = htons ethertype_ip;
  };
  ip = record hdr.ip {
    protocol = ipproto_udp;
    version = 4;
    ihl = 5;
    tos = 0;
    id = 0;
    frag_off = htons ip_df;
    ttl = 128;
    saddr = me.my_ip;
    daddr = d_ip;
  };
  udp = record hdr.udp { dest = htons d_port; source = htons s_port; check = 0 };
}

-- The buffer's header comes in and goes out; a null MAC is dereferenced, and gives `none`.
unfoldable pub generate_udp : MyAddress → UdpHdr → Option (List ℕ) → ℕ → ℕ → ℕ → Option UdpHdr
unfolding fill_udp
generate_udp me hdr none d_ip s_port d_port = none
generate_udp me hdr (some d_mac_addr) d_ip s_port d_port =
    some (fill_udp me hdr d_mac_addr d_ip s_port d_port)

pub arp_hdr : List ℕ → List ℕ → ℕ → ℕ → ℕ → ArpHdr
arp_hdr source_hardw_addr target_hardw_addr source_ip_addr target_ip_addr operation = record {
  eth = record {
    ether_dhost = take eth_alen target_hardw_addr;
    ether_shost = take eth_alen source_hardw_addr;
    ether_type = htons ethertype_arp;
  };
  arp = record {
    ar_hrd = htons arphrd_ether;
    ar_pro = htons ethertype_ip;
    ar_hln = 6;
    ar_pln = 4;
    ar_op = htons operation;
  };
  source_hardw_addr = take eth_alen source_hardw_addr;
  source_ip_addr = source_ip_addr;
  target_hardw_addr = take eth_alen target_hardw_addr;
  target_ip_addr = target_ip_addr;
}

-- `fresh` is what the 64 new bytes hold before they are written.
pub generate_arpv4 : List ℕ → List ℕ → List ℕ → ℕ → ℕ → ℕ → Heap → DataContainer × Heap
unfolding arp_hdr
generate_arpv4 fresh source_hardw_addr target_hardw_addr source_ip_addr target_ip_addr operation h =
    let hdr = arp_hdr source_hardw_addr target_hardw_addr source_ip_addr target_ip_addr operation in
    let (address, h') = new_array (arp_hdr_bytes hdr ++ drop sizeof_arp_hdr (take 64 fresh)) h in
    (record { data_ = address; length = sizeof_arp_hdr; owner_may_free_data = true }, h')

unfoldable pub generate_gratuitous_arpv4 : List ℕ → List ℕ → ℕ → Heap → DataContainer × Heap
unfolding generate_arpv4
generate_gratuitous_arpv4 fresh source_hardw_addr source_ip_addr h =
    generate_arpv4 fresh source_hardw_addr (replicate eth_alen 0) source_ip_addr source_ip_addr
      arpop_request h
