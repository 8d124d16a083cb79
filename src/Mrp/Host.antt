-- ===== src/Mrp/Host.antt =====
-- l1/MRP.h without `__USE_BIG_ENDIAN_FOR_MRP`, and the same build of `generateTriggerHDR`
-- (l1/L1DistributionHandler.cpp): fields in the machine's order, beside those of the other build.
use na62_farm_lib_networking.Base.{
  ℕ, ◌+◌, ◌*◌, ◌%◌, ◌^◌, ◌≤◌, ◌≡◌, List, [], ◌∷◌, ◌++◌, Bool, arith, if◌then◌else◌, ntohs, le_bytes,
  u8, u16, u32,
}
use na62_farm_lib_networking.Network.{UdpHdr, set_payload_size}
use na62_farm_lib_networking.Mrp.{
  Event, mrp_raw_hdr_bytes, set_number_of_triggers, MrpFrameHdr, trigger_raw_hdr_bytes,
  generate_trigger_hdr,
}

-- TRIGGER_RAW_HDR
pub record HostTriggerRawHdr : Type 0 where
  pub timestamp : ℕ
  pub trigger_type_word : ℕ
  pub request_zero_suppressed : ℕ
  pub fine_time : ℕ
  pub event_number : ℕ
  pub reserved2 : ℕ

-- MRP_RAW_HDR
pub record HostMrpRawHdr : Type 0 where
  pub mrp_length : ℕ
  pub number_of_triggers : ℕ
  pub ip_address : ℕ
  pub reserved : ℕ

-- MRP_FRAME_HDR, with `__USE_PFRING_FOR_MRP`
pub record HostMrpFrameHdr : Type 0 where
  pub udp : UdpHdr
  pub mrp_hdr : HostMrpRawHdr

abbrev pub host_trigger_bytes : HostTriggerRawHdr → List ℕ
host_trigger_bytes t =
    le_bytes 4 t.timestamp
    ++ (le_bytes 2 t.trigger_type_word
        ++ (u8 t.request_zero_suppressed
            ∷ u8 t.fine_time
            ∷ (le_bytes 3 t.event_number ++ u8 t.reserved2 ∷ [])))

abbrev pub host_mrp_bytes : HostMrpRawHdr → List ℕ
host_mrp_bytes h =
    le_bytes 2 h.mrp_length
    ++ (le_bytes 2 h.number_of_triggers ++ (le_bytes 4 h.ip_address ++ le_bytes 4 h.reserved))

pub host_set_raw_triggers : HostMrpRawHdr → ℕ → HostMrpRawHdr
host_set_raw_triggers h trigger_num = record h {
  number_of_triggers = u16 trigger_num;
  mrp_length = u16 (12 + trigger_num * 12);
}

-- The payload's length counts 8 bytes for the header.
unfoldable pub host_set_number_of_triggers : HostMrpFrameHdr → ℕ → HostMrpFrameHdr
unfolding host_set_raw_triggers
host_set_number_of_triggers h trigger_num = record {
  udp = set_payload_size h.udp (u16 (8 + trigger_num * 12));
  mrp_hdr = host_set_raw_triggers h.mrp_hdr trigger_num;
}

unfoldable pub host_generate_trigger_hdr : Event → Bool → HostTriggerRawHdr
host_generate_trigger_hdr event z_suppressed = record {
  timestamp = u32 event.timestamp;
  fine_time = u8 event.finetime;
  request_zero_suppressed = if z_suppressed then 1 else 0;
  trigger_type_word = u16 event.trigger_type_word;
  event_number = event.event_number % 2 ^ 24;
  reserved2 = 0;
}

-- Every word of four bytes is turned round; what is left over stays.
abbrev pub swap_words : List ℕ → List ℕ
swap_words (a ∷ b ∷ c ∷ d ∷ bytes) = d ∷ c ∷ b ∷ a ∷ swap_words bytes
swap_words bytes = bytes

abbrev pub first_word : List ℕ → List ℕ
first_word (a ∷ b ∷ c ∷ d ∷ bytes) = a ∷ b ∷ c ∷ d ∷ []
first_word bytes = bytes

-- For every event the trigger element of one build has the words of the other's in the opposite
-- byte order.
pub host_generate_trigger_hdr-swapped :
    (event : Event) (z_suppressed : Bool)
    → swap_words (host_trigger_bytes (host_generate_trigger_hdr event z_suppressed))
      ≡ trigger_raw_hdr_bytes (generate_trigger_hdr event z_suppressed)
unfolding host_generate_trigger_hdr generate_trigger_hdr
host_generate_trigger_hdr-swapped event z_suppressed = ground arith

-- For a frame's true lengths up to 5457 triggers, the length in the MRP header and the number of triggers
-- are the same in both builds, as one word in the opposite byte order, but the UDP and the IP
-- length of the machine's order build are four bytes short of the other's.
pub host_set_number_of_triggers-short :
    (h : HostMrpFrameHdr) (g : MrpFrameHdr) (n : ℕ)
    → n ≤ 5457
    → let h' = host_set_number_of_triggers h n in
      let g' = set_number_of_triggers g n in
      (swap_words (first_word (host_mrp_bytes h'.mrp_hdr))
        ≡ first_word (mrp_raw_hdr_bytes g'.mrp_hdr))
      × (ntohs h'.udp.udp.len + 4 ≡ ntohs g'.udp.udp.len)
      × (ntohs h'.udp.ip.tot_len + 4 ≡ ntohs g'.udp.ip.tot_len)
unfolding host_set_number_of_triggers set_number_of_triggers set_payload_size
host_set_number_of_triggers-short h g n small = (ground arith, omega arith, omega arith)
