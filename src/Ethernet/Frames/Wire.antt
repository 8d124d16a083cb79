-- ===== src/Ethernet/Frames/Wire.antt =====
-- The generated headers byte by byte, as the protocols define them.
use na62_farm_lib_networking.Base.{
  ℕ, ◌≡◌, refl, List, [], ◌∷◌, ◌++◌, some, arith, ap, be16, le_bytes, take, length, take_all,
  take-append, length-take, ◌∙◌, replicate,
}
use mathlib.Core.Option
use na62_farm_lib_networking.Memory.{Heap, read}
use na62_farm_lib_networking.Network.{UdpHdr, ArpHdr, arp_hdr_bytes, udp_hdr_bytes}
use na62_farm_lib_networking.Memory.Laws.{read-new_array}
use na62_farm_lib_networking.Network.Layout.{length-arp_hdr_bytes}
use na62_farm_lib_networking.Ethernet.Frames.{
  MyAddress, arp_hdr, generate_udp, generate_gratuitous_arpv4,
}

-- An IPv4 and UDP header without options: DF set, TTL 128, protocol 17, ports in network order. The
-- two lengths and the IP checksum are left as the buffer had them.
pub generate_udp-bytes :
    (me : MyAddress) (hdr : UdpHdr) (mac : List ℕ) (d_ip s_port d_port : ℕ)
    → length mac ≡ 6
    → length me.my_mac ≡ 6
    → Option.map udp_hdr_bytes (generate_udp me hdr (some mac) d_ip s_port d_port)
      ≡ some (
          (mac ++ (me.my_mac ++ (0x08 ∷ 0x00 ∷ [])))
          ++ ((0x45
                ∷ 0
                ∷ (le_bytes 2 hdr.ip.tot_len
                    ++ (0
                        ∷ 0
                        ∷ 0x40
                        ∷ 0
                        ∷ 128
                        ∷ 17
                        ∷ (le_bytes 2 hdr.ip.check ++ (le_bytes 4 me.my_ip ++ le_bytes 4 d_ip)))))
              ++ (be16 s_port ++ (be16 d_port ++ (le_bytes 2 hdr.udp.len ++ (0 ∷ 0 ∷ []))))))
unfolding generate_udp
generate_udp-bytes me hdr mac d_ip s_port d_port p q =
    ground (arith, take_all 6 mac, take_all 6 me.my_mac)

-- An ARP request for Ethernet (1) and IPv4 (0x0800): to the all-zero MAC, from `mac`, with the
-- sender's IP in both places. The IP's word holds it in network order.
abbrev pub arp_announcement : List ℕ → ℕ → List ℕ
arp_announcement mac ip =
    (replicate 6 0 ++ (mac ++ (0x08 ∷ 0x06 ∷ [])))
    ++ ((0 ∷ 1 ∷ 0x08 ∷ 0 ∷ 6 ∷ 4 ∷ 0 ∷ 1 ∷ [])
        ++ (mac ++ (le_bytes 4 ip ++ (replicate 6 0 ++ le_bytes 4 ip))))

abbrev pub announced : List ℕ → ℕ → ArpHdr
announced mac ip = arp_hdr mac (replicate 6 0) ip ip 1

announced-bytes :
    (mac : List ℕ) (ip : ℕ)
    → length mac ≡ 6
    → arp_hdr_bytes (announced mac ip) ≡ arp_announcement mac ip
unfolding arp_hdr
announced-bytes mac ip p = rw (take_all 6 mac (omega arith)) refl

pub length-announced :
    (mac : List ℕ) (ip : ℕ) → length mac ≡ 6 → length (arp_hdr_bytes (announced mac ip)) ≡ 42
unfolding arp_hdr
length-announced mac ip p =
    length-arp_hdr_bytes (announced mac ip) refl (omega (arith, length-take {0} 6 mac))
      (omega (arith, length-take {0} 6 mac)) refl

-- The announcement that is made is a 42-byte frame in a live block, with the bytes of an ARP request
-- that is sent to the all-zero MAC and names the sender's IP twice.
pub generate_gratuitous_arpv4-bytes :
    (fresh mac : List ℕ) (ip : ℕ) (h : Heap)
    → length mac ≡ 6
    → let r = generate_gratuitous_arpv4 fresh mac ip h in
      (r.0.length ≡ 42)
      × (Option.map (take 42) (read r.1 r.0.data_) ≡ some (arp_announcement mac ip))
unfolding generate_gratuitous_arpv4
generate_gratuitous_arpv4-bytes fresh mac ip h p = (
  refl,
  ap (Option.map (take 42)) (read-new_array _ h)
      ∙ ap some (
          take-append 42 (arp_hdr_bytes (announced mac ip)) _ (length-announced mac ip p)
          ∙ announced-bytes mac ip p),
)
