-- ===== src/L1Distribution/Sending/Frame.antt =====
-- The frame made for one header (l1/L1DistributionHandler.cpp, `Async_SendMRP`).
use na62_farm_lib_networking.Base.{
  ℕ, ◌+◌, ◌*◌, ◌≤◌, ◌<◌, ◌≡◌, ◌∙◌, refl, ap, List, ◌++◌, some, true, false, arith, ltb, length,
  length-append, take, ntohs, u8, u16,
}
use mathlib.Core.Path.{subst}
use na62_farm_lib_networking.Network.{UdpHdr, eth_alen, iphdr_bytes, set_payload_size}
use na62_farm_lib_networking.Ethernet.Checksum.{
  Checksums, udp_sum, generate_udp_checksum, set_udp_checksum, check_udp,
}
use na62_farm_lib_networking.Ethernet.Checksum.RoundTrip.{
  IsInternetChecksum, check_udp-set_udp_checksum, ip_sum-generate_checksum,
}
use na62_farm_lib_networking.Mrp.{
  MrpFrameHdr, mrp_raw_hdr_bytes, mrp_frame_hdr_bytes, get_number_of_triggers, get_size,
  set_number_of_triggers, sizeof_mrp_frame_hdr,
}
use na62_farm_lib_networking.Mrp.Sizes.{length-mrp_frame_hdr_bytes, set_number_of_triggers_fields}
use na62_farm_lib_networking.L1Distribution.Sending.{make_frame, set_ip_checksum}

-- The two MAC addresses have six bytes.
pub record HasMacs (h : MrpFrameHdr) : Type 0 where
  pub dhost : length h.udp.eth.ether_dhost ≡ eth_alen
  pub shost : length h.udp.eth.ether_shost ≡ eth_alen

-- The frame's header with its lengths and the IP checksum, before the UDP checksum.
summed : Checksums → ℕ → MrpFrameHdr → MrpFrameHdr
summed c n data_hdr =
    let hdr = set_number_of_triggers data_hdr n in record hdr { udp = set_ip_checksum c hdr.udp }

summed-HasMacs : (c : Checksums) (n : ℕ) (h : MrpFrameHdr) → HasMacs h → HasMacs (summed c n h)
unfolding summed set_number_of_triggers set_payload_size
summed-HasMacs c n h m = record { dhost = m.dhost; shost = m.shost }

abbrev with_check : MrpFrameHdr → ℕ → MrpFrameHdr
with_check h v = record h { udp = record h.udp { udp = record h.udp.udp { check = v } } }

get_size-le :
    (n : ℕ) (h : MrpFrameHdr) → get_size (set_number_of_triggers h (u16 n)).mrp_hdr ≤ 12 + 12 * n
unfolding set_number_of_triggers get_size
get_size-le n h = omega arith

set_udp_checksum-some :
    (c : Checksums) (hdr : UdpHdr) (payload : List ℕ) (n : ℕ)
    → n ≤ length payload
    → (v : ℕ) × (set_udp_checksum c hdr payload n
        ≡ some (record hdr { udp = record hdr.udp { check = v } }))
unfolding set_udp_checksum generate_udp_checksum
set_udp_checksum-some c hdr payload n held =
    let enough : ltb (length payload) n ≡ false = ground arith in
    let zeroed : UdpHdr = record hdr { udp = record hdr.udp { check = 0 } } in
    (c.wrapsum (udp_sum c zeroed (take n payload)), rw (enough, set_udp_checksum) refl)

make_frame_lem :
    (c : Checksums) (n m v : ℕ) (contents : List ℕ) (h : MrpFrameHdr)
    → u16 n ≡ m
    → set_udp_checksum c
        (summed c m h).udp
        (mrp_raw_hdr_bytes (summed c m h).mrp_hdr ++ contents)
        (get_size (summed c m h).mrp_hdr)
      ≡ some (with_check (summed c m h) v).udp
    → make_frame c n contents h
      ≡ some (mrp_frame_hdr_bytes (with_check (summed c m h) v) ++ contents)
unfolding make_frame summed
make_frame_lem c n m v contents h w e = rw (w, e, make_frame) refl

length-summed :
    (c : Checksums) (n v : ℕ) (contents : List ℕ) (h : MrpFrameHdr)
    → HasMacs h
    → length (mrp_frame_hdr_bytes (with_check (summed c n h) v) ++ contents)
      ≡ sizeof_mrp_frame_hdr + length contents
length-summed c n v contents h m =
    let macs = summed-HasMacs c n h m in
    length-append (mrp_frame_hdr_bytes (with_check (summed c n h) v)) contents
    ∙ ap (λ k. k + length contents)
        (length-mrp_frame_hdr_bytes (with_check (summed c n h) v) macs.dhost macs.shost)

-- Whatever the sums are, a frame is made for a header with MAC addresses: its checksum reads nothing
-- past its end, and its length is that of the header and the contents, whole triggers.
pub make_frame-some :
    (c : Checksums) (n : ℕ) (contents : List ℕ) (h : MrpFrameHdr)
    → HasMacs h
    → length contents ≡ 12 * n
    → (frame : List ℕ) × (make_frame c n contents h ≡ some frame)
      × (length frame ≡ sizeof_mrp_frame_hdr + 12 * n)
unfolding summed
make_frame-some c n contents h m e =
    let raw = (summed c (u16 n) h).mrp_hdr in
    let r =
      set_udp_checksum-some c (summed c (u16 n) h).udp (mrp_raw_hdr_bytes raw ++ contents)
        (get_size raw) (omega (arith, get_size-le n h)) in
    (
      mrp_frame_hdr_bytes (with_check (summed c (u16 n) h) r.0) ++ contents,
      make_frame_lem c n (u16 n) r.0 contents h refl r.1,
      omega (arith, length-summed c (u16 n) r.0 contents h m),
    )

-- The header of a frame that is right: it counts `n` triggers, its three lengths are true, the UDP
-- check accepts it with its payload, and the IP header sums to all ones.
pub record IsRight (c : Checksums) (n : ℕ) (contents : List ℕ) (h : MrpFrameHdr) : Type 0 where
  pub counts : get_number_of_triggers h.mrp_hdr ≡ n
  pub mrp_size : get_size h.mrp_hdr ≡ 12 + 12 * n
  pub udp_size : ntohs h.udp.udp.len ≡ 20 + 12 * n
  pub ip_size : ntohs h.udp.ip.tot_len ≡ 40 + 12 * n
  pub udp_accepted :
      check_udp c h.udp (mrp_raw_hdr_bytes h.mrp_hdr ++ contents) (12 + 12 * n) ≡ some true
  pub ip_accepted : c.generate_checksum_unwrapped (iphdr_bytes h.udp.ip) 0 ≡ 0xffff

summed_sizes :
    (c : Checksums) (n : ℕ) (h : MrpFrameHdr)
    → n ≤ 5457
    → (get_number_of_triggers (summed c n h).mrp_hdr ≡ n)
      × (get_size (summed c n h).mrp_hdr ≡ 12 + 12 * n)
      × (ntohs (summed c n h).udp.udp.len ≡ 20 + 12 * n)
      × (ntohs (summed c n h).udp.ip.tot_len ≡ 40 + 12 * n)
unfolding summed
summed_sizes c n h small =
    let f = set_number_of_triggers_fields h n (omega arith) in
    (f.0, (f.4.1 small).0, (f.4.1 small).1, (f.4.1 small).2)

summed-eth : (c : Checksums) (n : ℕ) (h : MrpFrameHdr) → (summed c n h).udp.eth ≡ h.udp.eth
unfolding summed set_number_of_triggers set_payload_size
summed-eth c n h = refl

summed_ip :
    (c : Checksums) (n : ℕ) (h : MrpFrameHdr)
    → IsInternetChecksum c
    → 0 < u8 (h.udp.ip.version * 16 + h.udp.ip.ihl)
    → c.generate_checksum_unwrapped (iphdr_bytes (summed c n h).udp.ip) 0 ≡ 0xffff
unfolding summed set_number_of_triggers set_payload_size
summed_ip c n h laws ver = ip_sum-generate_checksum c laws (set_number_of_triggers h n).udp.ip ver

-- Whatever the sums are, the frame's header counts the triggers, has their size and keeps the MACs.
pub make_frame_header :
    (c : Checksums) (n : ℕ) (contents : List ℕ) (h : MrpFrameHdr)
    → n ≤ 5457
    → length contents ≡ 12 * n
    → (out : MrpFrameHdr) × (make_frame c n contents h ≡ some (mrp_frame_hdr_bytes out ++ contents))
      × (out.udp.eth ≡ h.udp.eth)
      × (get_number_of_triggers out.mrp_hdr ≡ n)
      × (get_size out.mrp_hdr ≡ 12 + 12 * n)
make_frame_header c n contents h small e =
    let whole : u16 n ≡ n = omega arith in
    let sizes = summed_sizes c n h small in
    let raw = (summed c n h).mrp_hdr in
    let r =
      set_udp_checksum-some c (summed c n h).udp (mrp_raw_hdr_bytes raw ++ contents) (get_size raw)
        (omega (arith, sizes, length-append {0} (mrp_raw_hdr_bytes raw) contents)) in
    (
      with_check (summed c n h) r.0,
      make_frame_lem c n n r.0 contents h whole r.1,
      summed-eth c n h,
      sizes.0,
      sizes.1,
    )

-- With sums as in RFC 1071, `n` triggers, at most 5457, in 12 bytes each, and a header whose first IP
-- byte is not 0, a frame is made: a header with the MAC addresses of the given one, and then the
-- triggers' bytes. That header counts `n` triggers, its three lengths are true, the UDP check accepts
-- it, and its IP header sums to all ones.
pub make_frame-IsRight :
    (c : Checksums) (n : ℕ) (contents : List ℕ) (h : MrpFrameHdr)
    → IsInternetChecksum c
    → n ≤ 5457
    → length contents ≡ 12 * n
    → 0 < u8 (h.udp.ip.version * 16 + h.udp.ip.ihl)
    → (out : MrpFrameHdr) × (make_frame c n contents h ≡ some (mrp_frame_hdr_bytes out ++ contents))
      × (out.udp.eth ≡ h.udp.eth)
      × IsRight c n contents out
make_frame-IsRight c n contents h laws small e ver =
    let whole : u16 n ≡ n = omega arith in
    let sizes = summed_sizes c n h small in
    let raw = (summed c n h).mrp_hdr in
    let r =
      check_udp-set_udp_checksum c laws (summed c n h).udp (mrp_raw_hdr_bytes raw ++ contents)
        (get_size raw) (omega (arith, sizes)) (omega (arith, sizes)) in
    (
      with_check (summed c n h) r.0,
      make_frame_lem c n n r.0 contents h whole r.1,
      summed-eth c n h,
      record {
        counts = sizes.0;
        mrp_size = sizes.1;
        udp_size = sizes.2;
        ip_size = sizes.3;
        udp_accepted =
            subst
              (λ k.
                check_udp c (with_check (summed c n h) r.0).udp (mrp_raw_hdr_bytes raw ++ contents)
                  k
                ≡ some true)
              sizes.1 r.2;
        ip_accepted = summed_ip c n h laws ver;
      },
    )
