-- ===== src/Network/Fragments.antt =====
-- The fragmentation fields of the IP header (structs/Network.h).
use na62_farm_lib_networking.Base.{
  ℕ, ◌+◌, ◌*◌, ◌/◌, ◌%◌, ◌<◌, ◌≡◌, not, ◌||◌, ◌==◌, bit_and, arith, htons,
}
use na62_farm_lib_networking.Base.Bits.{bit_and_low, bit_and_split, bit_and-zero}
use na62_farm_lib_networking.Network.{
  UdpHdr, is_fragment, get_fragment_offset_in_bytes, is_more_fragments,
}

-- The bit at position 13, of a word that holds nothing above position 15.
bit_and_more : (a : ℕ) → bit_and a 0x2000 ≡ a / 0x2000 % 2 * 0x2000
bit_and_more a = ground (
  arith,
  bit_and_split 13 (a / 0x2000) (a % 0x2000) 1 0,
  bit_and_low 1 (a / 0x2000),
  bit_and-zero (a % 0x2000),
)

-- A header whose `frag_off` carries, in network order, the flags `reserved`, `df` and `mf` and the
-- offset `words` in units of 8 bytes is read back exactly: the offset is 8 * words, it has more
-- fragments when `mf` is 1, and it is a fragment when `mf` is 1 or the offset is not 0.
pub frag_off_fields :
    (h : UdpHdr) (reserved df mf words : ℕ)
    → reserved < 2
    → df < 2
    → mf < 2
    → words < 0x2000
    → h.ip.frag_off ≡ htons (reserved * 0x8000 + df * 0x4000 + mf * 0x2000 + words)
    → (get_fragment_offset_in_bytes h ≡ 8 * words)
      × (is_more_fragments h ≡ (mf == 1))
      × (is_fragment h ≡ (mf == 1) || not (words == 0))
unfolding is_fragment get_fragment_offset_in_bytes is_more_fragments
frag_off_fields h reserved df mf words hr hd hm hw e =
    let w : ℕ = htons h.ip.frag_off in
    (
      ground (arith, bit_and_low 13 w),
      ground (arith, bit_and_more w),
      ground (arith, bit_and_low 14 w),
    )
