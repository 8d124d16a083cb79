-- ===== src/Mrp.antt =====
-- l1/MRP.h with `__USE_BIG_ENDIAN_FOR_MRP`, and `generateTriggerHDR` of l1/L1DistributionHandler.cpp.
pub mod Sizes
pub mod Wire
pub mod Host
pub mod Receiver
pub mod Packed
mod Tests
use na62_farm_lib_networking.Base.{
  ℕ, ◌+◌, ◌*◌, ◌/◌, ◌%◌, ◌^◌, List, [], ◌∷◌, ◌++◌, Bool, if◌then◌else◌, htons, ntohs, htonl,
  le_bytes, u8, u16,
}
use na62_farm_lib_networking.Network.{UdpHdr, udp_hdr_bytes, zero_udp_hdr, set_payload_size}

-- TRIGGER_RAW_HDR; `event_number` is a bit field of 24 bits.
pub record TriggerRawHdr : Type 0 where
  pub timestamp : ℕ
  pub fine_time : ℕ
  pub request_zero_suppressed : ℕ
  pub trigger_type_word : ℕ
  pub reserved2 : ℕ
  pub event_number : ℕ

-- MRP_RAW_HDR
pub record MrpRawHdr : Type 0 where
  pub number_of_triggers : ℕ
  pub mrp_length : ℕ
  pub ip_address : ℕ
  pub reserved : ℕ

-- MRP_FRAME_HDR
pub record MrpFrameHdr : Type 0 where
  pub udp : UdpHdr
  pub mrp_hdr : MrpRawHdr

abbrev pub sizeof_trigger_raw_hdr : ℕ
sizeof_trigger_raw_hdr = 12

abbrev pub sizeof_mrp_raw_hdr : ℕ
sizeof_mrp_raw_hdr = 12

abbrev pub sizeof_mrp_frame_hdr : ℕ
sizeof_mrp_frame_hdr = 54

abbrev pub trigger_raw_hdr_bytes : TriggerRawHdr → List ℕ
trigger_raw_hdr_bytes t =
    le_bytes 4 t.timestamp
    ++ (u8 t.fine_time
        ∷ u8 t.request_zero_suppressed
        ∷ (le_bytes 2 t.trigger_type_word ++ (u8 t.reserved2 ∷ le_bytes 3 t.event_number)))

-- The elements of some triggers, one after another.
abbrev pub payload : List TriggerRawHdr → List ℕ
payload [] = []
payload (t ∷ ts) = trigger_raw_hdr_bytes t ++ payload ts

abbrev pub mrp_raw_hdr_bytes : MrpRawHdr → List ℕ
mrp_raw_hdr_bytes h =
    le_bytes 2 h.number_of_triggers
    ++ (le_bytes 2 h.mrp_length ++ (le_bytes 4 h.ip_address ++ le_bytes 4 h.reserved))

abbrev pub mrp_frame_hdr_bytes : MrpFrameHdr → List ℕ
mrp_frame_hdr_bytes h = udp_hdr_bytes h.udp ++ mrp_raw_hdr_bytes h.mrp_hdr

-- `new MRP_FRAME_HDR()`
abbrev pub new_mrp_frame_hdr : MrpFrameHdr
new_mrp_frame_hdr = record {
  udp = zero_udp_hdr;
  mrp_hdr = record { number_of_triggers = 0; mrp_length = 0; ip_address = 0; reserved = 0 };
}

-- The length is a `uint16_t`.
abbrev pub mrp_size : ℕ → ℕ
mrp_size trigger_num = u16 (sizeof_mrp_raw_hdr + trigger_num * sizeof_trigger_raw_hdr)

abbrev pub set_raw_triggers : MrpRawHdr → ℕ → MrpRawHdr
set_raw_triggers h trigger_num = record h {
  number_of_triggers = htons trigger_num;
  mrp_length = htons (mrp_size trigger_num);
}

pub get_number_of_triggers : MrpRawHdr → ℕ
get_number_of_triggers h = ntohs h.number_of_triggers

unfoldable pub get_size : MrpRawHdr → ℕ
get_size h = ntohs h.mrp_length

unfoldable pub set_number_of_triggers : MrpFrameHdr → ℕ → MrpFrameHdr
set_number_of_triggers h trigger_num = record {
  udp = set_payload_size h.udp (mrp_size trigger_num);
  mrp_hdr = set_raw_triggers h.mrp_hdr trigger_num;
}

-- What the getters of an `Event` (of the library na62-farm-lib) return.
pub record Event : Type 0 where
  pub timestamp : ℕ
  pub finetime : ℕ
  pub trigger_type_word : ℕ
  pub event_number : ℕ

unfoldable pub generate_trigger_hdr : Event → Bool → TriggerRawHdr
generate_trigger_hdr event z_suppressed = record {
  timestamp = htonl event.timestamp;
  fine_time = u8 event.finetime;
  request_zero_suppressed = if z_suppressed then 1 else 0;
  trigger_type_word = htons event.trigger_type_word;
  reserved2 = 0;
  event_number = htonl event.event_number / 2 ^ 8 % 2 ^ 24;
}
