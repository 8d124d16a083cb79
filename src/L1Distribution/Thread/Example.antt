-- ===== src/L1Distribution/Thread/Example.antt =====
-- A small first state for runs of the thread (l1/L1DistributionHandler.cpp).
use na62_farm_lib_networking.Base.{refl, [], ◌∷◌, inl, arith}
use na62_farm_lib_networking.Mrp.{Event, new_mrp_frame_hdr}
use na62_farm_lib_networking.NetworkHandler.{Net}
use na62_farm_lib_networking.L1Distribution.{start}
use na62_farm_lib_networking.L1Distribution.Thread.{filling, ThreadState}
use na62_farm_lib_networking.L1Distribution.Thread.Invariant.{IsConsistent}
use na62_farm_lib_networking.L1Distribution.Thread.System.{System}

abbrev pub event : Event
event = record {
  timestamp = 0x01020304;
  finetime = 0x55;
  trigger_type_word = 0x0a0b;
  event_number = 0x112233;
}

abbrev pub quiet : Net
quiet = record {
  my_address = record { my_mac = 0x00 ∷ 0x1b ∷ 0x21 ∷ 0xa0 ∷ 0x0f ∷ 0xff ∷ []; my_ip = 0x0100000a };
  async_send_data = [];
  bytes_received = 0;
  frames_received = 0;
  frames_sent = 0;
  heap = record { next = 0; cells = [] };
  wire = [];
}

-- One unicast header and two triggers per MRP.
abbrev pub initial : ThreadState
initial = record {
  l1 = record start {
    l1_unicast_request_hdrs = new_mrp_frame_hdr ∷ [];
    max_triggers_per_l1mrp = 2;
  };
  net = quiet;
  multicast_requests = [];
  mark = filling;
  trace = record { history = []; sent = [] };
}

pub initial-IsConsistent : IsConsistent [] initial
initial-IsConsistent = record {
  net_valid = record { heap_valid = tt; queue_safe = tt; mac_size = refl };
  unicast_macs = (record { dhost = refl; shost = refl }, tt);
  multicast_macs = tt;
  buffer_fits = omega arith;
  bounded = omega arith;
  room = inl refl;
  none_lost = refl;
  sent_once = refl;
  counted = refl;
}

abbrev pub begin : System
begin = record { state = initial; pushed = [] }
