-- ===== src/Network/Layout.antt =====
-- The sizes of the packed structs (structs/Network.h).
use na62_farm_lib_networking.Base.{◌≡◌, arith, length, length-append}
use na62_farm_lib_networking.Network.{
  UdpHdr, ArpHdr, EtherHeader, sizeof_udp_hdr, sizeof_arp_hdr, eth_alen, ether_header_bytes,
  udp_hdr_bytes, arp_hdr_bytes,
}

pub length-ether_header_bytes :
    (e : EtherHeader)
    → length e.ether_dhost ≡ eth_alen
    → length e.ether_shost ≡ eth_alen
    → length (ether_header_bytes e) ≡ 14
length-ether_header_bytes e d s =
    omega (arith, length-append {0} e.ether_dhost, length-append {0} e.ether_shost)

pub length-udp_hdr_bytes :
    (h : UdpHdr)
    → length h.eth.ether_dhost ≡ eth_alen
    → length h.eth.ether_shost ≡ eth_alen
    → length (udp_hdr_bytes h) ≡ sizeof_udp_hdr
length-udp_hdr_bytes h d s =
    omega (arith, length-append {0} (ether_header_bytes h.eth), length-ether_header_bytes h.eth d s)

pub length-arp_hdr_bytes :
    (h : ArpHdr)
    → length h.eth.ether_dhost ≡ eth_alen
    → length h.eth.ether_shost ≡ eth_alen
    → length h.source_hardw_addr ≡ eth_alen
    → length h.target_hardw_addr ≡ eth_alen
    → length (arp_hdr_bytes h) ≡ sizeof_arp_hdr
length-arp_hdr_bytes h d s p q = omega (
  arith,
  length-append {0} (ether_header_bytes h.eth),
  length-ether_header_bytes h.eth d s,
  length-append {0} h.source_hardw_addr,
  length-append {0} h.target_hardw_addr,
)
