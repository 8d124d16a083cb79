-- ===== src/Ethernet/Checksum.antt =====
-- `GenerateChecksum`, `GenerateUDPChecksum` and `CheckUDP` (socket/EthernetUtils.h).
--
-- The sums themselves are `DataContainer`'s, of a library outside this repository: a parameter. It
-- sees a block of memory as its bytes.
pub mod RoundTrip
use na62_farm_lib_networking.Base.{
  ℕ, ◌+◌, List, ◌++◌, Option, none, some, Bool, ◌==◌, ltb, if◌then◌else◌, length, take, ntohs,
  le_bytes,
}
use na62_farm_lib_networking.Network.{UdpHdr, udphdr_bytes}
use na62_farm_lib_networking.Ethernet.Frames.{ipproto_udp}

pub record Checksums : Type 0 where
  pub generate_checksum : List ℕ → ℕ → ℕ
  pub generate_checksum_unwrapped : List ℕ → ℕ → ℕ
  pub wrapsum : ℕ → ℕ

module _ (c : Checksums) where
  open c use {generate_checksum as data_checksum, generate_checksum_unwrapped as unwrapped, wrapsum}

  unfoldable pub generate_checksum : List ℕ → ℕ → ℕ
  generate_checksum block sum = data_checksum block sum

  -- The pseudo header: the protocol, the UDP length and the two addresses.
  pub pseudo_sum : UdpHdr → ℕ
  pseudo_sum hdr =
      unwrapped (le_bytes 4 hdr.ip.saddr ++ le_bytes 4 hdr.ip.daddr)
        (ipproto_udp + ntohs hdr.udp.len)

  pub udp_sum : UdpHdr → List ℕ → ℕ
  unfolding pseudo_sum
  udp_sum hdr payload = unwrapped (udphdr_bytes hdr.udp) (unwrapped payload (pseudo_sum hdr))

  -- The header's check field is zeroed, and the sum returned; `none` is a read past the payload that
  -- memory holds.
  unfoldable pub generate_udp_checksum : UdpHdr → List ℕ → ℕ → Option (UdpHdr × ℕ)
  unfolding udp_sum
  generate_udp_checksum hdr payload payload_length =
      let hdr' = record hdr { udp = record hdr.udp { check = 0 } } in
      if ltb (length payload) payload_length
      then none
      else some (hdr', wrapsum (udp_sum hdr' (take payload_length payload)))

  unfoldable pub check_udp : UdpHdr → List ℕ → ℕ → Option Bool
  unfolding udp_sum
  check_udp hdr udp_payload len =
      if ltb (length udp_payload) len
      then none
      else some (0xffff == udp_sum hdr (take len udp_payload))

  -- `hdr->udp.check = GenerateUDPChecksum(hdr, length)`
  unfoldable pub set_udp_checksum : UdpHdr → List ℕ → ℕ → Option UdpHdr
  set_udp_checksum hdr payload payload_length =
      elim (generate_udp_checksum hdr payload payload_length) [
        | none ↦ none
        | some (hdr', sum) ↦ some (record hdr' { udp = record hdr'.udp { check = sum } })
      ]
