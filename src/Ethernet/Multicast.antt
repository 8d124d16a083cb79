-- ===== src/Ethernet/Multicast.antt =====
-- `EthernetUtils::GenerateMulticastMac` (socket/EthernetUtils.h).
use na62_farm_lib_networking.Base.{
  ℕ, ◌+◌, ◌*◌, ◌%◌, ◌^◌, ◌<◌, ◌≡◌, ◌↔◌, refl, List, [], ◌∷◌, bit_and, arith, take, drop, le_bytes,
  length,
}
use na62_farm_lib_networking.Base.Bits.{bit_and_split, bit_and_low, bit_and-zero}

-- The three bytes are copied from the masked address's memory, past its first byte.
pub generate_multicast_mac : ℕ → List ℕ
generate_multicast_mac multicast_group =
    let multicast_ip = bit_and multicast_group 0xffff7f00 in
    0x01 ∷ 0x00 ∷ 0x5e ∷ take 3 (drop 1 (le_bytes 4 multicast_ip))

-- `inet_addr`: the address a.b.c.d as a word whose memory is a, b, c, d.
abbrev pub inet : ℕ → ℕ → ℕ → ℕ → ℕ
inet a b c d = a + b * 2 ^ 8 + c * 2 ^ 16 + d * 2 ^ 24

multicast_mask :
    (a b c d : ℕ)
    → a < 256
    → b < 256
    → c < 256
    → d < 256
    → bit_and (inet a b c d) 0xffff7f00 ≡ inet 0 (b % 128) c d
multicast_mask a b c d ha hb hc hd = ground (
  arith,
  bit_and_split 16 (c + d * 256) (a + b * 256) 0xffff 0x7f00,
  bit_and_low 16 (c + d * 256),
  bit_and_split 8 b a 0x7f 0,
  bit_and_low 7 b,
  bit_and-zero a,
)

-- The MAC of the group a.b.c.d is 01:00:5e followed by the group's last 23 bits, as RFC 1112 has it.
pub generate_multicast_mac_lem :
    (a b c d : ℕ)
    → a < 256
    → b < 256
    → c < 256
    → d < 256
    → generate_multicast_mac (inet a b c d) ≡ 0x01 ∷ 0x00 ∷ 0x5e ∷ b % 128 ∷ c ∷ d ∷ []
unfolding generate_multicast_mac
generate_multicast_mac_lem a b c d ha hb hc hd =
    rw (multicast_mask a b c d ha hb hc hd) (ground arith)

-- Two groups share a MAC exactly when they agree in their last 23 bits.
pub generate_multicast_mac-eq_iff :
    (a b c d a' b' c' d' : ℕ)
    → a < 256
    → b < 256
    → c < 256
    → d < 256
    → a' < 256
    → b' < 256
    → c' < 256
    → d' < 256
    → (generate_multicast_mac (inet a b c d) ≡ generate_multicast_mac (inet a' b' c' d'))
      ↔ ((b % 128 ≡ b' % 128) × (c ≡ c') × (d ≡ d'))
generate_multicast_mac-eq_iff a b c d a' b' c' d' ha hb hc hd ha' hb' hc' hd' =
    rw
      (
        generate_multicast_mac_lem a b c d ha hb hc hd,
        generate_multicast_mac_lem a' b' c' d' ha' hb' hc' hd',
      )
      (ground arith)

pub length-generate_multicast_mac : (group : ℕ) → length (generate_multicast_mac group) ≡ 6
unfolding generate_multicast_mac
length-generate_multicast_mac group = refl
