-- ===== src/Mrp/Sizes.antt =====
-- The lengths in an MRP frame (l1/MRP.h).
use na62_farm_lib_networking.Base.{
  ℕ, ◌+◌, ◌*◌, ◌%◌, ◌^◌, ◌≤◌, ◌<◌, ◌≡◌, ◌↔◌, arith, length, length-append, ntohs,
}
use na62_farm_lib_networking.Network.{set_payload_size, udp_hdr_bytes, eth_alen}
use na62_farm_lib_networking.Network.Layout.{length-udp_hdr_bytes}
use na62_farm_lib_networking.Mrp.{
  MrpFrameHdr, mrp_frame_hdr_bytes, sizeof_mrp_frame_hdr, get_number_of_triggers, get_size,
  set_number_of_triggers,
}

pub length-mrp_frame_hdr_bytes :
    (h : MrpFrameHdr)
    → length h.udp.eth.ether_dhost ≡ eth_alen
    → length h.udp.eth.ether_shost ≡ eth_alen
    → length (mrp_frame_hdr_bytes h) ≡ sizeof_mrp_frame_hdr
length-mrp_frame_hdr_bytes h d s =
    omega (arith, length-append {0} (udp_hdr_bytes h.udp), length-udp_hdr_bytes h.udp d s)

-- After the number of triggers is set to any 16-bit `n`, the frame says `n`; its MRP length, UDP length
-- and IP length are those of `n` triggers behind their headers, cut to 16 bits; and all three are the
-- true ones exactly when there are at most 5457 triggers.
pub set_number_of_triggers_fields :
    (h : MrpFrameHdr) (n : ℕ)
    → n < 2 ^ 16
    → let h' = set_number_of_triggers h n in
      (get_number_of_triggers h'.mrp_hdr ≡ n)
      × (get_size h'.mrp_hdr ≡ (12 + 12 * n) % 2 ^ 16)
      × (ntohs h'.udp.udp.len ≡ (8 + (12 + 12 * n) % 2 ^ 16) % 2 ^ 16)
      × (ntohs h'.udp.ip.tot_len ≡ (28 + (12 + 12 * n) % 2 ^ 16) % 2 ^ 16)
      × (((get_size h'.mrp_hdr ≡ 12 + 12 * n)
            × (ntohs h'.udp.udp.len ≡ 20 + 12 * n)
            × (ntohs h'.udp.ip.tot_len ≡ 40 + 12 * n))
          ↔ (n ≤ 5457))
unfolding set_number_of_triggers set_payload_size get_number_of_triggers get_size
set_number_of_triggers_fields h n small =
    (omega arith, omega arith, omega arith, omega arith, (λ e. omega arith, λ e. omega arith))
