-- ===== src/NetworkHandler/PFring/Tests.antt =====
-- Runs and examples for socket/PFringHandler.cpp.
use na62_farm_lib_networking.Base.{
  ℕ, zero, suc, ◌⊎◌, List, ◌≡◌, refl, [], ◌∷◌, none, some, true, arith, replicate,
}
use na62_farm_lib_networking.Memory.{DataContainer}
use na62_farm_lib_networking.NetworkHandler.{Net}
use na62_farm_lib_networking.NetworkHandler.PFring.{
  Rc, failed, bytes, Ring, do_send_queued_frames, get_frames_dropped, dropped_from,
}
use na62_farm_lib_networking.NetworkHandler.PFring.Sending.{now, later, Sends, pfring_send-Sends}
use na62_farm_lib_networking.NetworkHandler.Queued.{queued}
use na62_farm_lib_networking.NetworkHandler.PFring.Emptied.{accepted}
use na62_farm_lib_networking.NetworkHandler.PFring.Class.{Request}
use na62_farm_lib_networking.NetworkHandler.PFring.Startup.{Queue, ready, exits, open_queues}
use na62_farm_lib_networking.NetworkHandler.PFring.Startup.Settles.{
  AllWork, Stops, queues, open_queues-Settles,
}

abbrev quiet : Net
quiet = record {
  my_address = record { my_mac = 0x00 ∷ 0x1b ∷ 0x21 ∷ 0xa0 ∷ 0x0f ∷ 0xff ∷ []; my_ip = 0x0100000a };
  async_send_data = [];
  bytes_received = 0;
  frames_received = 0;
  frames_sent = 0;
  heap = record { next = 0; cells = [] };
  wire = [];
}

-- One frame of two bytes, in a buffer of three.
abbrev frame : DataContainer
frame = record { data_ = 0; length = 2; owner_may_free_data = true }

abbrev waiting : Net
waiting = record quiet {
  async_send_data = frame ∷ [];
  heap = record { next = 1; cells = (0, 7 ∷ 8 ∷ 9 ∷ []) ∷ [] };
}

-- A ring that has no space at first.
abbrev busy : Ring
busy = record { is_open = true; answers = failed ∷ bytes 60 ∷ [] }

pfring_send-Sends_example :
    (out : Net) × (returned : Rc) × (do_send_queued_frames busy waiting ≡ some (out, returned))
    × Sends 60 frame [] waiting out returned
pfring_send-Sends_example =
    pfring_send-Sends busy 60 waiting frame [] refl (later now)
      (record {
        heap_valid = (omega arith, tt);
        queue_safe = ((7 ∷ 8 ∷ 9 ∷ [], refl, omega arith), tt, tt);
        mac_size = refl;
      })
      refl

-- A ring that reports nothing counts with what the ring before it reported.
counts_again : get_frames_dropped (some 3 ∷ none ∷ []) ≡ 6
unfolding get_frames_dropped dropped_from
counts_again = refl

-- The second of two rings cannot be enabled.
abbrev library : ℕ → Request → Rc
library zero request = bytes 0
library (suc r) request = failed

open_queues-Settles_example :
    (AllWork library (b'd' ∷ []) 0 (some 0 ∷ some 1 ∷ [])
      × (open_queues library (b'd' ∷ []) 3 (some 0 ∷ some 1 ∷ none ∷ []) 2 0 []
          ≡ some (ready (queues library (b'd' ∷ []) 0 (some 0 ∷ some 1 ∷ [])))))
    ⊎ ((set_up : List Queue) × (open_queues library
            (b'd' ∷ [])
            3
            (some 0 ∷ some 1 ∷ none ∷ [])
            2
            0
            []
          ≡ some (exits set_up))
        × Stops library (b'd' ∷ []) 0 (some 0 ∷ some 1 ∷ []) set_up)
open_queues-Settles_example =
    open_queues-Settles library (b'd' ∷ []) (some 0 ∷ some 1 ∷ none ∷ []) 2 (omega arith)
      (omega arith)

-- A second frame behind the first.
abbrev two_waiting : Net
two_waiting = record quiet {
  async_send_data = frame ∷ record { data_ = 1; length = 1; owner_may_free_data = true } ∷ [];
  heap = record { next = 2; cells = (1, 5 ∷ []) ∷ (0, 7 ∷ 8 ∷ 9 ∷ []) ∷ [] };
}

both_padded :
    accepted (queued two_waiting.heap two_waiting.async_send_data)
    ≡ (7 ∷ 8 ∷ replicate 58 0) ∷ (5 ∷ replicate 59 0) ∷ []
both_padded = refl
