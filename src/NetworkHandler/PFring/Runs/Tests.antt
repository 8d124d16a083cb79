-- ===== src/NetworkHandler/PFring/Runs/Tests.antt =====
-- A run of the threads of the PF_RING build (socket/PFringHandler.cpp).
use na62_farm_lib_networking.Base.{◌≡◌, ◌⊎◌, ◌++◌, refl, [], ◌∷◌, none, some, true, arith, length}
use na62_farm_lib_networking.Memory.{DataContainer}
use na62_farm_lib_networking.NetworkHandler.{Net, unset, async_send_frame}
use na62_farm_lib_networking.NetworkHandler.PFring.{
  Rc, failed, bytes, Ring, capacity, push_frame, make_announcement, do_send_queued_frames,
}
use na62_farm_lib_networking.NetworkHandler.PFring.Sending.{now, later}
use na62_farm_lib_networking.NetworkHandler.PFring.Emptied.{accepted}
use na62_farm_lib_networking.NetworkHandler.PFring.System.{
  Threads, IsSound, Reach, starts, announces, queues, sends, here, next, owned, with_buffer,
}
use na62_farm_lib_networking.NetworkHandler.PFring.Flow.{flow}
use na62_farm_lib_networking.NetworkHandler.PFring.Runs.{puts, Reach-flows, Reach-proceeds}

-- The members once the addresses are set.
abbrev begin : Threads
begin = record {
  net = record unset {
    my_address = record {
      my_mac = 0x00 ∷ 0x1b ∷ 0x21 ∷ 0xa0 ∷ 0x0f ∷ 0xff ∷ [];
      my_ip = 0x0100000a;
    };
  };
  arp = none;
}

begin-IsSound : IsSound begin
begin-IsSound = record {
  valid = record { heap_valid = tt; queue_safe = tt; mac_size = refl };
  bounded = omega arith;
  shared = tt;
}

abbrev arp : DataContainer
arp = (make_announcement [] begin.net).0

abbrev made : Threads
made = record { net = (make_announcement [] begin.net).1; arp = some arp }

abbrev announced : Threads
announced = record made { net = async_send_frame arp made.net }

to_announced : push_frame arp made.net ≡ some announced.net
unfolding push_frame make_announcement
to_announced = refl

abbrev queued : Threads
queued = record announced {
  net =
      async_send_frame (owned (7 ∷ 8 ∷ []) announced.net) (with_buffer (7 ∷ 8 ∷ []) announced.net);
}

to_queued :
    push_frame (owned (7 ∷ 8 ∷ []) announced.net) (with_buffer (7 ∷ 8 ∷ []) announced.net)
    ≡ some queued.net
unfolding push_frame make_announcement async_send_frame
to_queued = refl

abbrev run_queued : Reach begin queued
run_queued =
    next (next (next here (starts [] refl)) (announces arp announced.net refl to_announced))
      (queues (7 ∷ 8 ∷ []) queued.net to_queued)

-- A ring that has no space at first.
abbrev busy : Ring
busy = record { is_open = true; answers = failed ∷ bytes 60 ∷ [] }

abbrev first_sent :
    (out : Net) × (rc : Rc) × (do_send_queued_frames busy queued.net ≡ some (out, rc))
    × ((push_frame arp queued.net ≡ some (async_send_frame arp queued.net))
        ⊎ ((length queued.net.async_send_data ≡ capacity)
            × (push_frame arp out ≡ some (async_send_frame arp out))))
first_sent = Reach-proceeds run_queued arp busy 60 begin-IsSound refl (later now)

Reach-proceeds_example :
    (out : Net) × (rc : Rc) × (do_send_queued_frames busy queued.net ≡ some (out, rc))
    × ((push_frame arp queued.net ≡ some (async_send_frame arp queued.net))
        ⊎ ((length queued.net.async_send_data ≡ capacity)
            × (push_frame arp out ≡ some (async_send_frame arp out))))
Reach-proceeds_example = Reach-proceeds run_queued arp busy 60 begin-IsSound refl (later now)

abbrev after : Threads
after = record queued { net = first_sent.0 }

abbrev run : Reach begin after
run = next run_queued (sends busy 60 first_sent.0 first_sent.1 refl (later now) first_sent.2)

Reach-flows_example : IsSound after × (flow after.net ≡ flow begin.net ++ accepted (puts run))
Reach-flows_example = Reach-flows run begin-IsSound
