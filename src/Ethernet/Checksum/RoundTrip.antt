-- ===== src/Ethernet/Checksum/RoundTrip.antt =====
-- A checksum that is generated is accepted by the check (socket/EthernetUtils.h).
use na62_farm_lib_networking.Base.{
  ℕ, ◌+◌, ◌-◌, ◌*◌, ◌%◌, ◌≤◌, ◌<◌, ◌≡◌, refl, List, [], ◌∷◌, some, true, false, ap, ◌∙◌, arith,
  ◌==◌, ltb, length, take, u8, htons, ntohs,
}
use na62_farm_lib_networking.Network.{UdpHdr, Udphdr, Iphdr, udphdr_bytes, iphdr_bytes}
use na62_farm_lib_networking.Ethernet.Checksum.{
  Checksums, generate_checksum, pseudo_sum, udp_sum, generate_udp_checksum, check_udp,
  set_udp_checksum,
}

-- The 16-bit words of a block in network order; an odd last byte is a high byte.
abbrev pub be_sum : List ℕ → ℕ
be_sum [] = 0
be_sum (a ∷ []) = a * 256
be_sum (a ∷ b ∷ bytes) = a * 256 + b + be_sum bytes

-- The Internet checksum of RFC 1071: a running one's complement sum of 16 bits, which is 0 for
-- nothing but zeros, and its complement in network order.
pub record IsInternetChecksum (c : Checksums) : Type 0 where
  pub congruent :
      (block : List ℕ) (sum : ℕ)
      → sum ≤ 0xffff
      → c.generate_checksum_unwrapped block sum % 0xffff ≡ (sum + be_sum block) % 0xffff
  pub bounded :
      (block : List ℕ) (sum : ℕ) → sum ≤ 0xffff → c.generate_checksum_unwrapped block sum ≤ 0xffff
  pub positive :
      (block : List ℕ) (sum : ℕ)
      → sum ≤ 0xffff
      → 0 < sum + be_sum block
      → 0 < c.generate_checksum_unwrapped block sum
  pub complement : (sum : ℕ) → sum ≤ 0xffff → c.wrapsum sum ≡ htons (0xffff - sum)
  pub whole :
      (block : List ℕ) (sum : ℕ)
      → c.generate_checksum block sum ≡ c.wrapsum (c.generate_checksum_unwrapped block sum)

module _ (c : Checksums) (laws : IsInternetChecksum c) where
  -- Putting the complement of the sum in the place of a zero field makes the sum all ones.
  pub unwrapped_complement :
      (block block' : List ℕ) (sum : ℕ)
      → sum ≤ 0xffff
      → be_sum block' ≡ be_sum block + (0xffff - c.generate_checksum_unwrapped block sum)
      → 0 < sum + be_sum block'
      → c.generate_checksum_unwrapped block' sum ≡ 0xffff
  unwrapped_complement block block' sum small filled pos = omega (
    arith,
    laws.congruent block sum small,
    laws.congruent block' sum small,
    laws.bounded block sum small,
    laws.bounded block' sum small,
    laws.positive block' sum small pos,
  )

  be_sum-check :
      (u : Udphdr) (v : ℕ)
      → v ≤ 0xffff
      → be_sum (udphdr_bytes (record u { check = htons v }))
        ≡ be_sum (udphdr_bytes (record u { check = 0 })) + v
  be_sum-check u v h = omega arith

  module _ (hdr : UdpHdr) (payload : List ℕ) (fits : ntohs hdr.udp.len ≤ 65518) where
    pseudo_sum-le : (pseudo_sum c hdr ≤ 0xffff) × (0 < pseudo_sum c hdr)
    unfolding pseudo_sum
    pseudo_sum-le = (laws.bounded _ _ (omega arith), laws.positive _ _ (omega arith) (omega arith))

    payload_sum-le :
        (c.generate_checksum_unwrapped payload (pseudo_sum c hdr) ≤ 0xffff)
        × (0 < c.generate_checksum_unwrapped payload (pseudo_sum c hdr))
    payload_sum-le = (
      laws.bounded _ _ pseudo_sum-le.0,
      laws.positive _ _ pseudo_sum-le.0 (omega (arith, pseudo_sum-le)),
    )

  zero_check : UdpHdr → UdpHdr
  zero_check hdr = record hdr { udp = record hdr.udp { check = 0 } }

  filled : UdpHdr → List ℕ → UdpHdr
  unfolding zero_check
  filled hdr payload = record hdr {
    udp = record hdr.udp { check = c.wrapsum (udp_sum c (zero_check hdr) payload) };
  }

  udp_sum-filled :
      (hdr : UdpHdr) (payload : List ℕ)
      → ntohs hdr.udp.len ≤ 65518
      → udp_sum c (filled hdr payload) payload ≡ 0xffff
  unfolding udp_sum filled zero_check
  udp_sum-filled hdr payload fits =
      let below = payload_sum-le (zero_check hdr) payload fits in
      let sum = udp_sum c (zero_check hdr) payload in
      let small : sum ≤ 0xffff = laws.bounded _ _ below.0 in
      unwrapped_complement (udphdr_bytes (record hdr.udp { check = 0 }))
        (udphdr_bytes (record hdr.udp { check = c.wrapsum sum })) _ below.0
        (rw (laws.complement sum small) (be_sum-check hdr.udp (0xffff - sum) (omega arith)))
        (omega (arith, below))

  -- With sums as in RFC 1071 and a UDP length of at most 65518, filling the check field over the
  -- first `n` bytes of a payload that memory holds changes that field only, and the check then
  -- accepts the frame.
  pub check_udp-set_udp_checksum :
      (hdr : UdpHdr) (payload : List ℕ) (n : ℕ)
      → ntohs hdr.udp.len ≤ 65518
      → n ≤ length payload
      → (v : ℕ) × (set_udp_checksum c hdr payload n
          ≡ some (record hdr { udp = record hdr.udp { check = v } }))
        × (check_udp c (record hdr { udp = record hdr.udp { check = v } }) payload n ≡ some true)
  unfolding set_udp_checksum generate_udp_checksum check_udp filled zero_check
  check_udp-set_udp_checksum hdr payload n fits held =
      let enough : ltb (length payload) n ≡ false = ground arith in
      (
        c.wrapsum (udp_sum c (zero_check hdr) (take n payload)),
        rw (enough, set_udp_checksum) refl,
        rw (enough, check_udp)
            (ap (λ sum. some (0xffff == sum)) (udp_sum-filled hdr (take n payload) fits)),
      )

  be_sum-ip_check :
      (ip : Iphdr) (v : ℕ)
      → v ≤ 0xffff
      → be_sum (iphdr_bytes (record ip { check = htons v }))
        ≡ be_sum (iphdr_bytes (record ip { check = 0 })) + v
  be_sum-ip_check ip v h = omega arith

  -- So too for the IP header, of which version and length are not both zero: with the check field made
  -- from the header with a zero check, the header sums to all ones.
  pub ip_sum-generate_checksum :
      (ip : Iphdr)
      → 0 < u8 (ip.version * 16 + ip.ihl)
      → c.generate_checksum_unwrapped
          (iphdr_bytes
            (record ip { check = generate_checksum c (iphdr_bytes (record ip { check = 0 })) 0 }))
          0
        ≡ 0xffff
  unfolding generate_checksum
  ip_sum-generate_checksum ip some_version =
      let block = iphdr_bytes (record ip { check = 0 }) in
      let sum = c.generate_checksum_unwrapped block 0 in
      let small : sum ≤ 0xffff = laws.bounded block 0 (omega arith) in
      let stored : c.generate_checksum block 0 ≡ htons (0xffff - sum) =
        laws.whole block 0 ∙ laws.complement sum small in
      rw stored (
        unwrapped_complement block (iphdr_bytes (record ip { check = htons (0xffff - sum) })) 0
          (omega arith) (be_sum-ip_check ip (0xffff - sum) (omega arith)) (omega arith))
