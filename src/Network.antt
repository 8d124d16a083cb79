-- ===== src/Network.antt =====
-- structs/Network.h: the packed header structs and their member functions.
--
-- A field holds the value that the host reads from it, so a field in network order holds `htons`
-- of its meaning. `bytes` is the packed struct's memory on a little-endian host; `ether_header`,
-- `iphdr`, `udphdr` and `arphdr` are the structs of the C library's headers.
pub mod Fragments
pub mod Lengths
pub mod Layout
pub mod Packed
mod Tests
use na62_farm_lib_networking.Base.{
  ℕ, ◌+◌, ◌*◌, List, [], ◌∷◌, ◌++◌, Bool, not, ◌==◌, bit_and, u16, u8, htons, ntohs, le_bytes,
}

abbrev pub eth_alen : ℕ
eth_alen = 6

abbrev pub ip_offmask : ℕ
ip_offmask = 0x1fff

abbrev pub ip_mf : ℕ
ip_mf = 0x2000

abbrev pub ip_df : ℕ
ip_df = 0x4000

pub record EtherHeader : Type 0 where
  pub ether_dhost : List ℕ
  pub ether_shost : List ℕ
  pub ether_type : ℕ

pub record Iphdr : Type 0 where
  pub version : ℕ
  pub ihl : ℕ
  pub tos : ℕ
  pub tot_len : ℕ
  pub id : ℕ
  pub frag_off : ℕ
  pub ttl : ℕ
  pub protocol : ℕ
  pub check : ℕ
  pub saddr : ℕ
  pub daddr : ℕ

pub record Udphdr : Type 0 where
  pub source : ℕ
  pub dest : ℕ
  pub len : ℕ
  pub check : ℕ

pub record Arphdr : Type 0 where
  pub ar_hrd : ℕ
  pub ar_pro : ℕ
  pub ar_hln : ℕ
  pub ar_pln : ℕ
  pub ar_op : ℕ

-- UDP_HDR
pub record UdpHdr : Type 0 where
  pub eth : EtherHeader
  pub ip : Iphdr
  pub udp : Udphdr

-- ARP_HDR
pub record ArpHdr : Type 0 where
  pub eth : EtherHeader
  pub arp : Arphdr
  pub source_hardw_addr : List ℕ
  pub source_ip_addr : ℕ
  pub target_hardw_addr : List ℕ
  pub target_ip_addr : ℕ

-- UDP_PSEUDOHDR
pub record UdpPseudohdr : Type 0 where
  pub saddr : ℕ
  pub daddr : ℕ
  pub reserved : ℕ
  pub protocol : ℕ
  pub udp_length : ℕ

-- EOB_FULL_FRAME; `last_event_num` is a bit field of 24 bits.
pub record EobFullFrame : Type 0 where
  pub udp : UdpHdr
  pub finished_burst_id : ℕ
  pub last_event_num : ℕ
  pub reserved : ℕ

-- The sizes of the packed structs, which the code takes by `sizeof`.
abbrev pub sizeof_iphdr : ℕ
sizeof_iphdr = 20

abbrev pub sizeof_udphdr : ℕ
sizeof_udphdr = 8

abbrev pub sizeof_udp_hdr : ℕ
sizeof_udp_hdr = 42

abbrev pub sizeof_arp_hdr : ℕ
sizeof_arp_hdr = 42

abbrev pub ether_header_bytes : EtherHeader → List ℕ
ether_header_bytes e = e.ether_dhost ++ (e.ether_shost ++ le_bytes 2 e.ether_type)

-- The first byte holds two bit fields, `ihl` in its low half.
abbrev pub iphdr_bytes : Iphdr → List ℕ
iphdr_bytes h =
    u8 (h.version * 16 + h.ihl)
    ∷ u8 h.tos
    ∷ (le_bytes 2 h.tot_len
        ++ (le_bytes 2 h.id
            ++ (le_bytes 2 h.frag_off
                ++ (u8 h.ttl
                    ∷ u8 h.protocol
                    ∷ (le_bytes 2 h.check ++ (le_bytes 4 h.saddr ++ le_bytes 4 h.daddr))))))

abbrev pub udphdr_bytes : Udphdr → List ℕ
udphdr_bytes h =
    le_bytes 2 h.source ++ (le_bytes 2 h.dest ++ (le_bytes 2 h.len ++ le_bytes 2 h.check))

abbrev pub udp_hdr_bytes : UdpHdr → List ℕ
udp_hdr_bytes h = ether_header_bytes h.eth ++ (iphdr_bytes h.ip ++ udphdr_bytes h.udp)

abbrev pub arphdr_bytes : Arphdr → List ℕ
arphdr_bytes h =
    le_bytes 2 h.ar_hrd ++ (le_bytes 2 h.ar_pro ++ (u8 h.ar_hln ∷ u8 h.ar_pln ∷ le_bytes 2 h.ar_op))

abbrev pub arp_hdr_bytes : ArpHdr → List ℕ
arp_hdr_bytes h =
    ether_header_bytes h.eth
    ++ (arphdr_bytes h.arp
        ++ (h.source_hardw_addr
            ++ (le_bytes 4 h.source_ip_addr
                ++ (h.target_hardw_addr ++ le_bytes 4 h.target_ip_addr))))

abbrev pub udp_pseudohdr_bytes : UdpPseudohdr → List ℕ
udp_pseudohdr_bytes h =
    le_bytes 4 h.saddr
    ++ (le_bytes 4 h.daddr ++ (u8 h.reserved ∷ u8 h.protocol ∷ le_bytes 2 h.udp_length))

abbrev pub eob_full_frame_bytes : EobFullFrame → List ℕ
eob_full_frame_bytes h =
    udp_hdr_bytes h.udp
    ++ (le_bytes 4 h.finished_burst_id ++ (le_bytes 3 h.last_event_num ++ (u8 h.reserved ∷ [])))

-- A new header: all bytes zero.
abbrev pub zero_mac : List ℕ
zero_mac = 0 ∷ 0 ∷ 0 ∷ 0 ∷ 0 ∷ 0 ∷ []

abbrev pub zero_udp_hdr : UdpHdr
zero_udp_hdr = record {
  eth = record { ether_dhost = zero_mac; ether_shost = zero_mac; ether_type = 0 };
  ip = record {
    version = 0;
    ihl = 0;
    tos = 0;
    tot_len = 0;
    id = 0;
    frag_off = 0;
    ttl = 0;
    protocol = 0;
    check = 0;
    saddr = 0;
    daddr = 0;
  };
  udp = record { source = 0; dest = 0; len = 0; check = 0 };
}

-- `htons` takes a `uint16_t`, so a longer sum is cut off.
unfoldable pub set_payload_size : UdpHdr → ℕ → UdpHdr
set_payload_size h data_length = record h {
  ip = record h.ip { tot_len = htons (u16 (sizeof_iphdr + sizeof_udphdr + data_length)) };
  udp = record h.udp { len = htons (u16 (sizeof_udphdr + data_length)) };
}

-- A number as a C++ `bool`.
abbrev pub truthy : ℕ → Bool
truthy n = not (n == 0)

-- `IP_OFFMASK | IP_MF` is 0x3fff.
pub is_fragment : UdpHdr → Bool
is_fragment h = truthy (bit_and (ntohs h.ip.frag_off) 0x3fff)

pub get_fragment_offset_in_bytes : UdpHdr → ℕ
get_fragment_offset_in_bytes h = bit_and (ntohs h.ip.frag_off) ip_offmask * 8

pub is_more_fragments : UdpHdr → Bool
is_more_fragments h = truthy (bit_and (ntohs h.ip.frag_off) ip_mf)
