-- ===== src/Mrp/Wire.antt =====
-- A trigger element on the wire (l1/MRP.h and `generateTriggerHDR`).
use na62_farm_lib_networking.Base.{
  ℕ, ◌+◌, ◌*◌, ◌%◌, ◌^◌, ◌≡◌, List, [], ◌∷◌, ◌++◌, Bool, if◌then◌else◌, arith, be16, be24, be32, u8,
}
use na62_farm_lib_networking.Mrp.{Event, trigger_raw_hdr_bytes, generate_trigger_hdr}

-- Twelve bytes: the timestamp, the fine time, 1 or 0 for the zero suppression, the trigger type word, a
-- zero and the low 24 bits of the event number, each number in network order.
pub generate_trigger_hdr-bytes :
    (event : Event) (z_suppressed : Bool)
    → trigger_raw_hdr_bytes (generate_trigger_hdr event z_suppressed)
      ≡ be32 event.timestamp
        ++ (u8 event.finetime
            ∷ (if z_suppressed then 1 else 0)
            ∷ (be16 event.trigger_type_word ++ (0 ∷ be24 event.event_number)))
unfolding generate_trigger_hdr
generate_trigger_hdr-bytes event z_suppressed = ground arith

-- What a receiver reads back from the twelve bytes.
abbrev pub read_event : List ℕ → Event
read_event (t3 ∷ t2 ∷ t1 ∷ t0 ∷ f ∷ z ∷ w1 ∷ w0 ∷ r ∷ e2 ∷ e1 ∷ e0 ∷ []) = record {
  timestamp = ((t3 * 256 + t2) * 256 + t1) * 256 + t0;
  finetime = f;
  trigger_type_word = w1 * 256 + w0;
  event_number = (e2 * 256 + e1) * 256 + e0;
}
read_event other = record { timestamp = 0; finetime = 0; trigger_type_word = 0; event_number = 0 }

-- A receiver that reads the element in network order has the event's numbers, cut to the widths of
-- the fields.
pub read_event-generate_trigger_hdr :
    (event : Event) (z_suppressed : Bool)
    → read_event (trigger_raw_hdr_bytes (generate_trigger_hdr event z_suppressed)) ≡ record {
      timestamp = event.timestamp % 2 ^ 32;
      finetime = event.finetime % 2 ^ 8;
      trigger_type_word = event.trigger_type_word % 2 ^ 16;
      event_number = event.event_number % 2 ^ 24;
    }
unfolding generate_trigger_hdr
read_event-generate_trigger_hdr event z_suppressed = ground arith
