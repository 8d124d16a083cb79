-- ===== src/NetworkHandler/PFring/System.antt =====
-- The threads that use the send queue of the PF_RING build, as steps in any order
-- (socket/PFringHandler.cpp).
use na62_farm_lib_networking.Base.{
  ℕ, ◌+◌, ◌≤◌, ◌<◌, ◌≡◌, refl, List, [], ◌∷◌, Option, none, some, true, inl, inr, arith, ltb,
  length, length-append, Bool-cases,
}
use na62_farm_lib_networking.Memory.{DataContainer, new_array}
use na62_farm_lib_networking.Network.{arp_hdr_bytes}
use na62_farm_lib_networking.Ethernet.Frames.Wire.{announced}
use na62_farm_lib_networking.NetworkHandler.{Net, async_send_frame}
use na62_farm_lib_networking.NetworkHandler.Safety.{NetIsValid}
use na62_farm_lib_networking.NetworkHandler.Queued.{frame_of}
use na62_farm_lib_networking.NetworkHandler.PFring.{
  Rc, Ring, capacity, push_frame, make_announcement, do_send_queued_frames,
}
use na62_farm_lib_networking.NetworkHandler.PFring.Sending.{Succeeds}
use na62_farm_lib_networking.NetworkHandler.PFring.Announcing.{CanShare}

-- The members, and the announcement once the thread has made it.
pub record Threads : Type 0 where
  pub net : Net
  pub arp : Option DataContainer

-- A new buffer with a frame, which the queue is to free.
abbrev pub owned : List ℕ → Net → DataContainer
owned frame net = record {
  data_ = (new_array frame net.heap).0;
  length = length frame;
  owner_may_free_data = true;
}

abbrev pub with_buffer : List ℕ → Net → Net
with_buffer frame net = record net { heap = (new_array frame net.heap).1 }

-- The thread makes its announcement, or a round of it pushes it; a caller pushes a new frame; a sender
-- calls with an open ring that accepts a frame sooner or later. A push that waits is no step.
pub data Step (y : Threads) : Threads → Type 0 where
  starts :
      (fresh : List ℕ)
      → y.arp ≡ none
      → Step y (record {
        net = (make_announcement fresh y.net).1;
        arp = some (make_announcement fresh y.net).0;
      })
  announces :
      (arp : DataContainer) (net : Net)
      → y.arp ≡ some arp
      → push_frame arp y.net ≡ some net
      → Step y (record y { net = net })
  queues :
      (frame : List ℕ) (net : Net)
      → push_frame (owned frame y.net) (with_buffer frame y.net) ≡ some net
      → Step y (record y { net = net })
  sends :
      (ring : Ring) (n : ℕ) (net : Net) (rc : Rc)
      → ring.is_open ≡ true
      → Succeeds n ring.answers
      → do_send_queued_frames ring y.net ≡ some (net, rc)
      → Step y (record y { net = net })

pub data Reach (y : Threads) : Threads → Type 0 where
  here : Reach y y
  next : {z w : Threads} → Reach y z → Step z w → Reach y w

-- This machine's announcement.
abbrev pub announcement : Net → List ℕ
announcement net = arp_hdr_bytes (announced net.my_address.my_mac net.my_address.my_ip)

abbrev pub IsShared : Option DataContainer → Net → Type 0
IsShared none net = Unit {0}
IsShared (some d) net = CanShare d net × (frame_of net.heap d ≡ some (announcement net))

-- The members are valid, the queue is within its capacity, and the buffer of the announcement holds it
-- and is freed by nobody.
pub record IsSound (y : Threads) : Type 0 where
  pub valid : NetIsValid y.net
  pub bounded : length y.net.async_send_data ≤ capacity
  pub shared : IsShared y.arp y.net

-- A push that returns found room.
pub push_frame-some :
    (frame : DataContainer) (net out : Net)
    → push_frame frame net ≡ some out
    → (length net.async_send_data < capacity) × (async_send_frame frame net ≡ out)
unfolding push_frame
push_frame-some frame net out e = elim (Bool-cases (ltb (length net.async_send_data) capacity)) [
  | inl room ↦ (
    ground arith,
    let f : push_frame frame net ≡ some (async_send_frame frame net) = rw room refl in cc,
  )
  | inr full ↦ let f : push_frame frame net ≡ none = rw full refl in absurd cc
]

pub length-async_send_frame :
    (frame : DataContainer) (net : Net)
    → length (async_send_frame frame net).async_send_data ≡ length net.async_send_data + 1
unfolding async_send_frame
length-async_send_frame frame net = omega (arith, length-append net.async_send_data (frame ∷ []))
