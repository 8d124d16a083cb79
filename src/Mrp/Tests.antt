-- ===== src/Mrp/Tests.antt =====
-- Runs and examples for l1/MRP.h.
use na62_farm_lib_networking.Base.{
  ◌+◌, ◌*◌, ◌%◌, ◌^◌, ◌≤◌, ◌≡◌, ◌↔◌, refl, [], ◌∷◌, true, arith, ntohs,
}
use na62_farm_lib_networking.Mrp.{
  Event, new_mrp_frame_hdr, trigger_raw_hdr_bytes, get_number_of_triggers, get_size,
  set_number_of_triggers, generate_trigger_hdr,
}
use na62_farm_lib_networking.Network.{zero_udp_hdr}
use na62_farm_lib_networking.Mrp.{mrp_raw_hdr_bytes}
use na62_farm_lib_networking.Mrp.Host.{
  HostMrpFrameHdr, host_mrp_bytes, host_set_number_of_triggers, swap_words, first_word,
  host_set_number_of_triggers-short,
}
use na62_farm_lib_networking.Mrp.Sizes.{set_number_of_triggers_fields}
use na62_farm_lib_networking.Mrp.Wire.{read_event, read_event-generate_trigger_hdr}

abbrev event : Event
event = record {
  timestamp = 0x01020304;
  finetime = 0x55;
  trigger_type_word = 0x0a0b;
  event_number = 0x112233;
}

set_number_of_triggers_fields_example :
    let h = set_number_of_triggers new_mrp_frame_hdr 10 in
    (get_number_of_triggers h.mrp_hdr ≡ 10)
    × (get_size h.mrp_hdr ≡ (12 + 12 * 10) % 2 ^ 16)
    × (ntohs h.udp.udp.len ≡ (8 + (12 + 12 * 10) % 2 ^ 16) % 2 ^ 16)
    × (ntohs h.udp.ip.tot_len ≡ (28 + (12 + 12 * 10) % 2 ^ 16) % 2 ^ 16)
    × (((get_size h.mrp_hdr ≡ 12 + 12 * 10)
          × (ntohs h.udp.udp.len ≡ 20 + 12 * 10)
          × (ntohs h.udp.ip.tot_len ≡ 40 + 12 * 10))
        ↔ (10 ≤ 5457))
set_number_of_triggers_fields_example =
    set_number_of_triggers_fields new_mrp_frame_hdr 10 (omega arith)

read_event-generate_trigger_hdr_example :
    read_event (trigger_raw_hdr_bytes (generate_trigger_hdr event true)) ≡ record {
      timestamp = 0x01020304 % 2 ^ 32;
      finetime = 0x55 % 2 ^ 8;
      trigger_type_word = 0x0a0b % 2 ^ 16;
      event_number = 0x112233 % 2 ^ 24;
    }
read_event-generate_trigger_hdr_example = read_event-generate_trigger_hdr event true

twelve_bytes :
    trigger_raw_hdr_bytes (generate_trigger_hdr event true)
    ≡ 1 ∷ 2 ∷ 3 ∷ 4 ∷ 0x55 ∷ 1 ∷ 0x0a ∷ 0x0b ∷ 0 ∷ 0x11 ∷ 0x22 ∷ 0x33 ∷ []
unfolding generate_trigger_hdr
twelve_bytes = refl

abbrev host_hdr : HostMrpFrameHdr
host_hdr = record {
  udp = zero_udp_hdr;
  mrp_hdr = record { mrp_length = 0; number_of_triggers = 0; ip_address = 0; reserved = 0 };
}

host_set_number_of_triggers-short_example :
    (swap_words (first_word (host_mrp_bytes (host_set_number_of_triggers host_hdr 10).mrp_hdr))
      ≡ first_word (mrp_raw_hdr_bytes (set_number_of_triggers new_mrp_frame_hdr 10).mrp_hdr))
    × (ntohs (host_set_number_of_triggers host_hdr 10).udp.udp.len + 4
        ≡ ntohs (set_number_of_triggers new_mrp_frame_hdr 10).udp.udp.len)
    × (ntohs (host_set_number_of_triggers host_hdr 10).udp.ip.tot_len + 4
        ≡ ntohs (set_number_of_triggers new_mrp_frame_hdr 10).udp.ip.tot_len)
host_set_number_of_triggers-short_example =
    host_set_number_of_triggers-short host_hdr new_mrp_frame_hdr 10 (omega arith)
