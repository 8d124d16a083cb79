-- ===== src/NetworkHandler/Tests.antt =====
-- Runs and examples for socket/NetworkHandler.h and socket/PCapHandler.cpp.
use na62_farm_lib_networking.Base.{
  ℕ, ◌≡◌, refl, [], ◌∷◌, some, none, true, false, replicate, arith, map, length, List, Option,
}
use na62_farm_lib_networking.Memory.{DataContainer, delete_array}
use na62_farm_lib_networking.NetworkHandler.{Net}
use na62_farm_lib_networking.NetworkHandler.PFring.{failed, bytes}
use na62_farm_lib_networking.NetworkHandler.Receiving.{
  receive_all, arrived, poll_all, polled, counting, received-counting,
}
use na62_farm_lib_networking.NetworkHandler.PCap.{do_send_queued_frames, thread_round}
use na62_farm_lib_networking.NetworkHandler.PCap.Startup.{Answers, LeftOver, ready, open_socket}
use na62_farm_lib_networking.NetworkHandler.PCap.Startup.Outcome.{Ends, open_socket-Ends}
use mathlib.Core.List.{Perm}
use na62_farm_lib_networking.Base.{◌++◌}
use na62_farm_lib_networking.NetworkHandler.Safety.{NetIsValid}
use na62_farm_lib_networking.NetworkHandler.{async_send_frame}
use na62_farm_lib_networking.NetworkHandler.PCap.{give}
use na62_farm_lib_networking.NetworkHandler.PCap.Senders.{
  Senders, Reach, here, next, queues, pops, gives, whole, frames_in, frames_queued,
}
use na62_farm_lib_networking.NetworkHandler.PCap.Senders.Kept.{Reach-keeps}
use na62_farm_lib_networking.NetworkHandler.PCap.Sending.{Sends, do_send_queued_frames-Sends}
use na62_farm_lib_networking.NetworkHandler.PCap.Announcing.{IsLost, announcement-IsLost}

abbrev quiet : Net
quiet = record {
  my_address = record { my_mac = 0x00 ∷ 0x1b ∷ 0x21 ∷ 0xa0 ∷ 0x0f ∷ 0xff ∷ []; my_ip = 0x0100000a };
  async_send_data = [];
  bytes_received = 0;
  frames_received = 0;
  frames_sent = 0;
  heap = record { next = 0; cells = [] };
  wire = [];
}

-- One frame of two bytes, in a buffer of three.
abbrev frame : DataContainer
frame = record { data_ = 0; length = 2; owner_may_free_data = true }

abbrev waiting : Net
waiting = record quiet {
  async_send_data = frame ∷ [];
  heap = record { next = 1; cells = (0, 7 ∷ 8 ∷ 9 ∷ []) ∷ [] };
}

do_send_queued_frames-Sends_example :
    (out : Net) × (returned : ℕ) × (do_send_queued_frames true waiting ≡ some (out, returned))
    × Sends true frame [] waiting out returned
do_send_queued_frames-Sends_example =
    do_send_queued_frames-Sends true waiting frame []
      (record {
        heap_valid = (omega arith, tt);
        queue_safe = ((7 ∷ 8 ∷ 9 ∷ [], refl, omega arith), tt, tt);
        mac_size = refl;
      })
      refl

announcement-IsLost_example :
    (out : Net) × (n : ℕ) × (do_send_queued_frames true (thread_round [] quiet) ≡ some (out, n))
    × IsLost quiet.heap.next out
announcement-IsLost_example =
    announcement-IsLost [] true quiet (record { heap_valid = tt; queue_safe = tt; mac_size = refl })
      refl

-- The device cannot be bound.
abbrev unbound : Answers
unbound = record {
  socket = some 3;
  siocgifflags = λ name. some 3;
  reuse_address = true;
  bind_to_device = false;
  receive_timeout = true;
  receive_buffer = true;
  siocgifindex = λ name. some 2;
}

abbrev left : LeftOver
left = record { ifr_name = replicate 16 0; ifr_flags = 0; sockopt = 1 }

-- For the device eth0.
open_socket-Ends_example : Ends unbound left (b'e' ∷ b't' ∷ b'h' ∷ []) b'0'
open_socket-Ends_example =
    open_socket-Ends unbound left (b'e' ∷ b't' ∷ b'h' ∷ []) b'0' (refl, (refl, (refl, (refl, tt))))
      (omega arith)

-- The flags that are set are those of `eth`.
asked_flags :
    open_socket (record unbound { bind_to_device = true }) left (b'e' ∷ b't' ∷ b'h' ∷ b'0' ∷ [])
    ≡ some (
        ready (record {
          socket_ = 3;
          is_open = true;
          flags_set = (b'e' ∷ b't' ∷ b'h' ∷ [], 0x103);
          reuses_address = some 1;
          bound_to = some (b'e' ∷ b't' ∷ b'h' ∷ b'0' ∷ []);
          timeout_usec = some 1000;
          buffer_size = some 524288;
          sll_ifindex = 2;
        }))
unfolding open_socket
asked_flags = refl

-- One frame of two bytes, then the end of the waiting time.
abbrev answered : List (Option (List ℕ))
answered = some (7 ∷ 8 ∷ []) ∷ none ∷ []

received-counting_example :
    (receive_all answered quiet
      ≡ (counting (map length (arrived answered)) quiet, arrived answered))
    × (poll_all ((60, bytes 1) ∷ (0, failed) ∷ []) quiet
        ≡ counting (polled ((60, bytes 1) ∷ (0, failed) ∷ [])) quiet)
received-counting_example =
    received-counting answered ((60, bytes 1) ∷ (0, failed) ∷ []) quiet (omega arith) (omega arith)

-- Two frames are taken out by two senders, and the second is given to the device first.
abbrev first : DataContainer
first = record { data_ = 0; length = 2; owner_may_free_data = true }

abbrev second : DataContainer
second = record { data_ = 1; length = 1; owner_may_free_data = true }

abbrev both : Net
both = record quiet { heap = record { next = 2; cells = (1, 9 ∷ []) ∷ (0, 7 ∷ 8 ∷ []) ∷ [] } }

abbrev one_given : Net
one_given = record quiet {
  frames_sent = 2;
  heap = record { next = 2; cells = (0, 7 ∷ 8 ∷ []) ∷ [] };
  wire = (9 ∷ []) ∷ [];
}

abbrev nobody : Senders
nobody = record { net = quiet; held = [] }

abbrev overtaken : Senders
overtaken = record { net = one_given; held = first ∷ [] }

to_one_given : give true second both ≡ some (one_given, 1)
unfolding give delete_array
to_one_given = refl

abbrev two_senders : Reach nobody overtaken
unfolding async_send_frame
two_senders =
    next
      (next
        (next
          (next (next here (queues (7 ∷ 8 ∷ []) first refl (omega arith)))
            (queues (9 ∷ []) second refl (omega arith)))
          (pops first (second ∷ []) refl))
        (pops second [] refl))
      (gives (first ∷ []) [] second one_given 1 refl to_one_given)

Reach-keeps_example :
    NetIsValid (whole overtaken)
    × Perm (frames_in overtaken) (frames_in nobody ++ frames_queued two_senders)
Reach-keeps_example =
    Reach-keeps two_senders (record { heap_valid = tt; queue_safe = tt; mac_size = refl })
