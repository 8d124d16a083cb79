-- ===== src/Network/Packed.antt =====
-- The packed structs of structs/Network.h and their bytes are the same thing: the fields fill the bytes.
use na62_farm_lib_networking.Base.{ℕ, ◌^◌, ◌<◌, refl, le_bytes}
use na62_farm_lib_networking.Base.Layout.{
  HasBytes, IsLayout, le_bytes-IsLayout, array-IsLayout, then-IsLayout, struct-IsLayout,
  halves-IsLayout,
}
use na62_farm_lib_networking.Network.{
  EtherHeader, Iphdr, Udphdr, Arphdr, UdpHdr, ArpHdr, ether_header_bytes, iphdr_bytes, udphdr_bytes,
  udp_hdr_bytes, arphdr_bytes, arp_hdr_bytes, UdpPseudohdr, EobFullFrame, udp_pseudohdr_bytes,
  eob_full_frame_bytes,
}

-- The values that the fields can have.
abbrev pub EtherFits : EtherHeader → Type 0
EtherFits h = HasBytes 6 h.ether_dhost × (HasBytes 6 h.ether_shost × (h.ether_type < 256 ^ 2))

abbrev pub IpFits : Iphdr → Type 0
IpFits h =
    ((h.version < 16) × (h.ihl < 16))
    × ((h.tos < 256 ^ 1)
        × ((h.tot_len < 256 ^ 2)
            × ((h.id < 256 ^ 2)
                × ((h.frag_off < 256 ^ 2)
                    × ((h.ttl < 256 ^ 1)
                        × ((h.protocol < 256 ^ 1)
                            × ((h.check < 256 ^ 2)
                                × ((h.saddr < 256 ^ 4) × (h.daddr < 256 ^ 4)))))))))

abbrev pub UdpFits : Udphdr → Type 0
UdpFits h = (h.source < 256 ^ 2) × ((h.dest < 256 ^ 2) × ((h.len < 256 ^ 2) × (h.check < 256 ^ 2)))

abbrev pub FrameFits : UdpHdr → Type 0
FrameFits h = EtherFits h.eth × (IpFits h.ip × UdpFits h.udp)

abbrev pub ArpFits : Arphdr → Type 0
ArpFits h =
    (h.ar_hrd < 256 ^ 2)
    × ((h.ar_pro < 256 ^ 2) × ((h.ar_hln < 256 ^ 1) × ((h.ar_pln < 256 ^ 1) × (h.ar_op < 256 ^ 2))))

abbrev pub ArpFrameFits : ArpHdr → Type 0
ArpFrameFits h =
    EtherFits h.eth
    × (ArpFits h.arp
        × (HasBytes 6 h.source_hardw_addr
            × ((h.source_ip_addr < 256 ^ 4)
                × (HasBytes 6 h.target_hardw_addr × (h.target_ip_addr < 256 ^ 4)))))

abbrev pub PseudoFits : UdpPseudohdr → Type 0
PseudoFits h =
    (h.saddr < 256 ^ 4)
    × ((h.daddr < 256 ^ 4)
        × ((h.reserved < 256 ^ 1) × ((h.protocol < 256 ^ 1) × (h.udp_length < 256 ^ 2))))

abbrev pub EobFits : EobFullFrame → Type 0
EobFits h =
    FrameFits h.udp
    × ((h.finished_burst_id < 256 ^ 4) × ((h.last_event_num < 256 ^ 3) × (h.reserved < 256 ^ 1)))

pub number : (k : ℕ) → IsLayout k (λ v. v < 256 ^ k) (le_bytes k)
number = le_bytes-IsLayout

mac : IsLayout 6 (HasBytes 6) (λ bytes. bytes)
mac = array-IsLayout 6

ether-IsLayout : IsLayout 14 EtherFits ether_header_bytes
ether-IsLayout =
    struct-IsLayout (λ p. record { ether_dhost = p.0; ether_shost = p.1.0; ether_type = p.1.1 })
      (λ h. (h.ether_dhost, (h.ether_shost, h.ether_type))) (λ p. refl) (λ h. refl)
      (then-IsLayout mac (then-IsLayout mac (number 2)))

ip-IsLayout : IsLayout 20 IpFits iphdr_bytes
ip-IsLayout =
    struct-IsLayout
      (λ p. record {
        version = p.0.0;
        ihl = p.0.1;
        tos = p.1.0;
        tot_len = p.1.1.0;
        id = p.1.1.1.0;
        frag_off = p.1.1.1.1.0;
        ttl = p.1.1.1.1.1.0;
        protocol = p.1.1.1.1.1.1.0;
        check = p.1.1.1.1.1.1.1.0;
        saddr = p.1.1.1.1.1.1.1.1.0;
        daddr = p.1.1.1.1.1.1.1.1.1;
      })
      (λ h. (
        (h.version, h.ihl),
        (
          h.tos,
          (h.tot_len, (h.id, (h.frag_off, (h.ttl, (h.protocol, (h.check, (h.saddr, h.daddr))))))),
        ),
      ))
      (λ p. refl) (λ h. refl)
      (then-IsLayout halves-IsLayout (
        then-IsLayout (number 1) (
          then-IsLayout (number 2) (
            then-IsLayout (number 2) (
              then-IsLayout (number 2) (
                then-IsLayout (number 1) (
                  then-IsLayout (number 1)
                    (then-IsLayout (number 2) (then-IsLayout (number 4) (number 4))))))))))

udp-IsLayout : IsLayout 8 UdpFits udphdr_bytes
udp-IsLayout =
    struct-IsLayout (λ p. record { source = p.0; dest = p.1.0; len = p.1.1.0; check = p.1.1.1 })
      (λ h. (h.source, (h.dest, (h.len, h.check)))) (λ p. refl) (λ h. refl)
      (then-IsLayout (number 2) (then-IsLayout (number 2) (then-IsLayout (number 2) (number 2))))

pub udp_hdr-IsLayout : IsLayout 42 FrameFits udp_hdr_bytes
udp_hdr-IsLayout =
    struct-IsLayout (λ p. record { eth = p.0; ip = p.1.0; udp = p.1.1 })
      (λ h. (h.eth, (h.ip, h.udp))) (λ p. refl) (λ h. refl)
      (then-IsLayout ether-IsLayout (then-IsLayout ip-IsLayout udp-IsLayout))

arp-IsLayout : IsLayout 8 ArpFits arphdr_bytes
arp-IsLayout =
    struct-IsLayout
      (λ p. record {
        ar_hrd = p.0;
        ar_pro = p.1.0;
        ar_hln = p.1.1.0;
        ar_pln = p.1.1.1.0;
        ar_op = p.1.1.1.1;
      })
      (λ h. (h.ar_hrd, (h.ar_pro, (h.ar_hln, (h.ar_pln, h.ar_op))))) (λ p. refl) (λ h. refl)
      (then-IsLayout (number 2)
        (then-IsLayout (number 2) (then-IsLayout (number 1) (then-IsLayout (number 1) (number 2)))))

pub arp_hdr-IsLayout : IsLayout 42 ArpFrameFits arp_hdr_bytes
arp_hdr-IsLayout =
    struct-IsLayout
      (λ p. record {
        eth = p.0;
        arp = p.1.0;
        source_hardw_addr = p.1.1.0;
        source_ip_addr = p.1.1.1.0;
        target_hardw_addr = p.1.1.1.1.0;
        target_ip_addr = p.1.1.1.1.1;
      })
      (λ h. (
        h.eth,
        (h.arp, (h.source_hardw_addr, (h.source_ip_addr, (h.target_hardw_addr, h.target_ip_addr)))),
      ))
      (λ p. refl) (λ h. refl)
      (then-IsLayout ether-IsLayout (
        then-IsLayout arp-IsLayout
          (then-IsLayout mac (then-IsLayout (number 4) (then-IsLayout mac (number 4))))))

pub udp_pseudohdr-IsLayout : IsLayout 12 PseudoFits udp_pseudohdr_bytes
udp_pseudohdr-IsLayout =
    struct-IsLayout
      (λ p. record {
        saddr = p.0;
        daddr = p.1.0;
        reserved = p.1.1.0;
        protocol = p.1.1.1.0;
        udp_length = p.1.1.1.1;
      })
      (λ h. (h.saddr, (h.daddr, (h.reserved, (h.protocol, h.udp_length))))) (λ p. refl) (λ h. refl)
      (then-IsLayout (number 4)
        (then-IsLayout (number 4) (then-IsLayout (number 1) (then-IsLayout (number 1) (number 2)))))

pub eob_full_frame-IsLayout : IsLayout 50 EobFits eob_full_frame_bytes
eob_full_frame-IsLayout =
    struct-IsLayout
      (λ p. record {
        udp = p.0;
        finished_burst_id = p.1.0;
        last_event_num = p.1.1.0;
        reserved = p.1.1.1;
      })
      (λ h. (h.udp, (h.finished_burst_id, (h.last_event_num, h.reserved)))) (λ p. refl) (λ h. refl)
      (then-IsLayout udp_hdr-IsLayout
        (then-IsLayout (number 4) (then-IsLayout (number 3) (number 1))))
