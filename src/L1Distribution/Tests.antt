-- ===== src/L1Distribution/Tests.antt =====
-- Runs and examples for l1/L1DistributionHandler.h and l1/L1DistributionHandler.cpp.
use na62_farm_lib_networking.Base.{
  ℕ, ◌+◌, ◌≡◌, ◌>>=◌, ◌↔◌, refl, List, [], ◌∷◌, ◌++◌, map, none, some, true, false, arith, length,
  take, drop, replicate, u64,
}
use na62_farm_lib_networking.Ethernet.Mac.{string_to_mac}
use na62_farm_lib_networking.Ethernet.Mac.RoundTrip.{mac_text, string_to_mac-mac_text}
use na62_farm_lib_networking.Ethernet.Frames.{MyAddress}
use na62_farm_lib_networking.Ethernet.Reference.{reference, reference-IsInternetChecksum}
use na62_farm_lib_networking.Mrp.{
  TriggerRawHdr, MrpFrameHdr, Event, new_mrp_frame_hdr, generate_trigger_hdr, mrp_frame_hdr_bytes,
}
use na62_farm_lib_networking.NetworkHandler.{Net}
use na62_farm_lib_networking.L1Distribution.{
  L1DistributionHandler, start, Resolver, Options, initialize,
}
use na62_farm_lib_networking.L1Distribution.Thread.Invariant.{IsConsistent}
use na62_farm_lib_networking.L1Distribution.Thread.Started.{first_state, initialize-IsConsistent}
use na62_farm_lib_networking.L1Distribution.Requests.{Request}
use na62_farm_lib_networking.L1Distribution.Setup.{
  IsInitialized, initialize-IsInitialized, initialize-none_iff,
}
use na62_farm_lib_networking.L1Distribution.Sending.{make_frame, async_send_mrp}
use na62_farm_lib_networking.L1Distribution.Sending.Frame.{IsRight, make_frame-IsRight}
use na62_farm_lib_networking.Mrp.{payload}
use na62_farm_lib_networking.L1Distribution.Sending.Received.{read_frame-make_frame}
use na62_farm_lib_networking.Mrp.Receiver.{read_frame, event_of}
use na62_farm_lib_networking.L1Distribution.Sending.Batch.{Queues, async_send_mrp-Queues}

abbrev event : Event
event = record {
  timestamp = 0x01020304;
  finetime = 0x55;
  trigger_type_word = 0x0a0b;
  event_number = 0x112233;
}

abbrev requests : List Request
requests =
    record { flush_burst = false; event = event; z_suppressed = true }
    ∷ record { flush_burst = true; event = event; z_suppressed = false }
    ∷ []

abbrev card : List ℕ
card = 0x00 ∷ 0x1b ∷ 0x21 ∷ 0xa0 ∷ 0x0f ∷ 0xff ∷ []

abbrev me : MyAddress
me = record { my_mac = card; my_ip = 0x0100000a }

-- Any text stands for the group 239.0.0.1 and for the address 10.0.0.2.
abbrev resolver : Resolver
resolver = record { inet_addr = λ text. 0x010000ef; inet_pton = λ text. some 0x0200000a }

abbrev options : Options
options = record {
  max_triggers_per_mrp = 2;
  min_usec_between_l1_requests = 100;
  multicast_group_names = [] ∷ [];
  unicast_address = [] ∷ [] ∷ [];
  source_port = 58913;
  destination_port = 58913;
  gateway_mac = mac_text false card ++ [];
}

initialize-IsInitialized_example :
    (l1 : L1DistributionHandler) × (initialize me resolver options (λ _. 0) start ≡ some l1)
    × IsInitialized me resolver options (λ _. 0) card start l1
initialize-IsInitialized_example =
    initialize-IsInitialized me resolver options (λ _. 0) refl start card
      (string_to_mac-mac_text false card [] refl (omega arith))

initialize-none_iff_example :
    (initialize me resolver options (λ _. 0) start ≡ none)
    ↔ (string_to_mac options.gateway_mac ≡ none)
initialize-none_iff_example = initialize-none_iff me resolver options (λ _. 0) refl start

abbrev trigger : TriggerRawHdr
trigger = generate_trigger_hdr event true

-- A new header with an IP version, for the frames.
abbrev data_hdr : MrpFrameHdr
data_hdr = record new_mrp_frame_hdr {
  udp = record new_mrp_frame_hdr.udp {
    ip = record new_mrp_frame_hdr.udp.ip {
      version = 4;
      ihl = 5;
      saddr = 0x0100000a;
      daddr = 0x0200000a;
    };
  };
}

make_frame-IsRight_example :
    (out : MrpFrameHdr) × (make_frame reference 2 (replicate 24 7) data_hdr
      ≡ some (mrp_frame_hdr_bytes out ++ replicate 24 7))
    × (out.udp.eth ≡ data_hdr.udp.eth)
    × IsRight reference 2 (replicate 24 7) out
make_frame-IsRight_example =
    make_frame-IsRight reference 2 (replicate 24 7) data_hdr reference-IsInternetChecksum
      (omega arith) refl (omega arith)

abbrev ready : L1DistributionHandler
ready = record start {
  l1_multicast_request_hdrs = data_hdr ∷ [];
  l1_unicast_request_hdrs = data_hdr ∷ [];
  max_triggers_per_l1mrp = 2;
}

abbrev quiet : Net
quiet = record {
  my_address = me;
  async_send_data = [];
  bytes_received = 0;
  frames_received = 0;
  frames_sent = 0;
  heap = record { next = 0; cells = [] };
  wire = [];
}

abbrev three : List TriggerRawHdr
three = trigger ∷ trigger ∷ trigger ∷ []

async_send_mrp-Queues_example :
    (net : Net) × (async_send_mrp reference three ready quiet
      ≡ some (
        drop 2 three,
        record ready {
          l1_triggers_sent = u64 (ready.l1_triggers_sent + length (take 2 three));
          l1_mrps_sent = u64 (ready.l1_mrps_sent + 1);
        },
        net,
      ))
    × Queues
        (map
          (make_frame reference (length (take 2 three)) (payload (take 2 three)))
          (data_hdr ∷ data_hdr ∷ []))
        quiet
        net
async_send_mrp-Queues_example =
    async_send_mrp-Queues reference ready quiet three (record { dhost = refl; shost = refl }, tt)
      (record { dhost = refl; shost = refl }, tt)
      (record { heap_valid = tt; queue_safe = tt; mac_size = refl }) (omega arith)

initialize-IsConsistent_example :
    (l1 : L1DistributionHandler) × (initialize me resolver options (λ _. 0) start ≡ some l1)
    × IsConsistent [] (first_state l1 quiet)
initialize-IsConsistent_example =
    initialize-IsConsistent me resolver options (λ _. 0) card quiet refl
      (string_to_mac-mac_text false card [] refl (omega arith)) (omega arith)
      (record { heap_valid = tt; queue_safe = tt; mac_size = refl })

read_frame-make_frame_example :
    (make_frame reference 3 (payload three) data_hdr >>= read_frame) ≡ some (map event_of three)
read_frame-make_frame_example =
    read_frame-make_frame reference data_hdr three (record { dhost = refl; shost = refl })
      (omega arith)
