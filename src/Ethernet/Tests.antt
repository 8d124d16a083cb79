-- ===== src/Ethernet/Tests.antt =====
-- Runs and examples for socket/EthernetUtils.h and socket/EthernetUtils.cpp.
use mathlib.Core.Option
use na62_farm_lib_networking.Ethernet.Ip.{ip_to_string}
use na62_farm_lib_networking.Base.{
  codes, int_text, ℕ, ◌+◌, ◌/◌, ◌%◌, ◌≡◌, refl, List, [], ◌∷◌, ◌++◌, none, some, true, not, ◌&&◌,
  arith, ◌==◌, leb, ltb, if◌then◌else◌, length, take, replicate, htons, le_bytes, be16,
}
use na62_farm_lib_networking.Memory.{Heap, read}
use na62_farm_lib_networking.Network.{UdpHdr, zero_udp_hdr, udp_hdr_bytes}
use na62_farm_lib_networking.Ethernet.Multicast.{
  inet, generate_multicast_mac, generate_multicast_mac_lem,
}
use na62_farm_lib_networking.Ethernet.Iface.{
  Kernel, ifnamsiz, get_mac_of_interface, get_ip_of_interface,
}
use na62_farm_lib_networking.Ethernet.Iface.Names.{interface_requests}
use na62_farm_lib_networking.Ethernet.Frames.{MyAddress, generate_udp, generate_gratuitous_arpv4}
use na62_farm_lib_networking.Ethernet.Frames.Wire.{
  generate_udp-bytes, arp_announcement, generate_gratuitous_arpv4-bytes,
}
use na62_farm_lib_networking.Ethernet.CheckData.{check_data, word_sum, check_data_lem}
use na62_farm_lib_networking.Ethernet.Checksum.{set_udp_checksum, check_udp}
use na62_farm_lib_networking.Ethernet.Checksum.RoundTrip.{check_udp-set_udp_checksum}
use na62_farm_lib_networking.Ethernet.Reference.{reference, reference-IsInternetChecksum}

generate_multicast_mac_lem_example :
    generate_multicast_mac (inet 239 129 2 3) ≡ 0x01 ∷ 0x00 ∷ 0x5e ∷ 129 % 128 ∷ 2 ∷ 3 ∷ []
generate_multicast_mac_lem_example =
    generate_multicast_mac_lem 239 129 2 3 (omega arith) (omega arith) (omega arith) (omega arith)

-- "dna", "eth0" and "2".
abbrev driver : List ℕ
driver = b'd' ∷ b'n' ∷ b'a' ∷ []

abbrev eth0 : List ℕ
eth0 = b'e' ∷ b't' ∷ b'h' ∷ b'0' ∷ []

abbrev queue : List ℕ
queue = b'2' ∷ []

abbrev mac : List ℕ
mac = 0x00 ∷ 0x1b ∷ 0x21 ∷ 0xa0 ∷ 0x0f ∷ 0xff ∷ []

-- A kernel with one interface, of a four-letter name.
abbrev one_card : Kernel
one_card = record {
  siocgifhwaddr = λ name. if length name == 4 then some (mac ++ replicate 8 0) else none;
  siocgifaddr = λ name. if length name == 4 then some 0x0100000a else none;
}

interface_requests_example :
    let iface = driver ++ b':' ∷ (eth0 ++ b'@' ∷ queue) in
    (get_mac_of_interface one_card iface ≡ (
      if ltb (length eth0) ifnamsiz
      then some (take 6 (Option.get_or (one_card.siocgifhwaddr eth0) (replicate 14 0)))
      else none))
    × (get_ip_of_interface one_card 7 iface ≡ Option.get_or (one_card.siocgifaddr (take 15 eth0)) 7)
interface_requests_example =
    interface_requests one_card 7 driver eth0 queue (omega arith) (omega arith) (omega arith)
      (omega arith) (omega arith) (omega arith) (omega arith)

abbrev me : MyAddress
me = record { my_mac = mac; my_ip = 0x0100000a }

generate_udp-bytes_example :
    Option.map udp_hdr_bytes
      (generate_udp me zero_udp_hdr (some (replicate 6 0xff)) 0xffffffff 58913 58913)
    ≡ some (
        (replicate 6 0xff ++ (mac ++ (0x08 ∷ 0x00 ∷ [])))
        ++ ((0x45
              ∷ 0
              ∷ (le_bytes 2 0
                  ++ (0
                      ∷ 0
                      ∷ 0x40
                      ∷ 0
                      ∷ 128
                      ∷ 17
                      ∷ (le_bytes 2 0 ++ (le_bytes 4 0x0100000a ++ le_bytes 4 0xffffffff)))))
            ++ (be16 58913 ++ (be16 58913 ++ (le_bytes 2 0 ++ (0 ∷ 0 ∷ []))))))
generate_udp-bytes_example =
    generate_udp-bytes me zero_udp_hdr (replicate 6 0xff) 0xffffffff 58913 58913 refl refl

abbrev no_memory : Heap
no_memory = record { next = 0; cells = [] }

generate_gratuitous_arpv4-bytes_example :
    let r = generate_gratuitous_arpv4 (replicate 64 0xaa) mac 0x0100000a no_memory in
    (r.0.length ≡ 42)
    × (Option.map (take 42) (read r.1 r.0.data_) ≡ some (arp_announcement mac 0x0100000a))
generate_gratuitous_arpv4-bytes_example =
    generate_gratuitous_arpv4-bytes (replicate 64 0xaa) mac 0x0100000a no_memory refl

-- Two words, of which the second is the complement of the first, and an odd length.
abbrev two_words : List ℕ
two_words = 0x12 ∷ 0x34 ∷ 0xed ∷ 0xcb ∷ []

check_data_lem_example : check_data two_words 4 ≡ (
    if leb (4 + 4 % 2) (length two_words)
    then some (
        not (word_sum ((4 + 1) / 2) two_words == 0)
        && (word_sum ((4 + 1) / 2) two_words % 65535 == 0))
    else none)
check_data_lem_example = check_data_lem two_words 4 (omega arith) (omega arith)

abbrev some_udp : UdpHdr
some_udp = record zero_udp_hdr {
  ip = record zero_udp_hdr.ip { saddr = 0x0100000a; daddr = 0x0200000a };
  udp = record { source = 0x1234; dest = 0x5678; len = htons 11; check = 0 };
}

check_udp-set_udp_checksum_example :
    (v : ℕ) × (set_udp_checksum reference some_udp (1 ∷ 2 ∷ 3 ∷ []) 3
      ≡ some (record some_udp { udp = record some_udp.udp { check = v } }))
    × (check_udp reference
          (record some_udp { udp = record some_udp.udp { check = v } })
          (1 ∷ 2 ∷ 3 ∷ [])
          3
        ≡ some true)
check_udp-set_udp_checksum_example =
    check_udp-set_udp_checksum reference reference-IsInternetChecksum some_udp (1 ∷ 2 ∷ 3 ∷ []) 3
      (omega arith) (omega arith)

-- 10.0.0.1 in network order.
dotted : ip_to_string 0x0100000a ≡ codes "10.0.0.1"
unfolding ip_to_string int_text
dotted = refl
