-- ===== src/NetworkHandler/PCap/Senders.antt =====
-- Any number of senders, each in its own call of DoSendQueuedFrames, beside threads that queue new frames
-- (socket/PCapHandler.cpp).
pub mod Kept
use mathlib.Core.List.{Perm, perm_middle, append_assoc, append-nil}
use mathlib.Core.List.Perm
use mathlib.Core.Option
use mathlib.Core.Path.{subst}
use na62_farm_lib_networking.Base.{
  ℕ, ◌≤◌, ◌≡◌, ◌∙◌, refl, sym, ap, List, [], ◌∷◌, ◌++◌, map, Option, none, some, Bool, true, length,
  take, arith,
}
use na62_farm_lib_networking.Memory.{Heap, DataContainer, new_array, delete_array}
use na62_farm_lib_networking.NetworkHandler.{Net, async_send_frame, load}
use na62_farm_lib_networking.NetworkHandler.Safety.{
  IsApart, IsApart-sym, AllApart, AreSafe, NetIsValid, async_send_frame-NetIsValid,
}
use na62_farm_lib_networking.NetworkHandler.Queued.{frame_of, queued-async_send_frame}
use na62_farm_lib_networking.NetworkHandler.Outbox.{
  all_frames, outbox, outbox-do_send_queued_frames, perform-takes,
}
use na62_farm_lib_networking.NetworkHandler.PCap.{give, send_and_free, send_frame_concurrently}
use na62_farm_lib_networking.NetworkHandler.PCap.Sending.{
  do_send_queued_frames-give, do_send_queued_frames-valid,
}

-- `held` has the frames that senders have taken out and not yet given to the device.
pub record Senders : Type 0 where
  pub net : Net
  pub held : List DataContainer

abbrev pub with_data : Net → List DataContainer → Net
with_data net q = record net { async_send_data = q }

-- `AsyncSendFrame` of a frame in a new buffer, as Async_SendMRP and the announcing thread call it; the `try_pop`
-- of a sender; or the rest of a sender's call, whichever frame it holds.
pub data Step (y : Senders) : Senders → Type 0 where
  queues :
      (bytes : List ℕ) (d : DataContainer)
      → d.data_ ≡ (new_array bytes y.net.heap).0
      → d.length ≤ length bytes
      → Step y (record y {
        net = async_send_frame d (record y.net { heap = (new_array bytes y.net.heap).1 });
      })
  pops :
      (d : DataContainer) (q : List DataContainer)
      → y.net.async_send_data ≡ d ∷ q
      → Step y (record { net = with_data y.net q; held = y.held ++ d ∷ [] })
  gives :
      (earlier later : List DataContainer) (d : DataContainer) (net : Net) (bytes : ℕ)
      → y.held ≡ earlier ++ d ∷ later
      → give true d y.net ≡ some (net, bytes)
      → Step y (record { net = net; held = earlier ++ later })

pub data Reach (y : Senders) : Senders → Type 0 where
  here : Reach y y
  next : {z w : Senders} → Reach y z → Step z w → Reach y w

-- The frames that a step and a run queue.
unfoldable pub step_queued : {y z : Senders} → Step y z → List (Option (List ℕ))
step_queued (queues bytes d e f) = some (take d.length bytes) ∷ []
step_queued (pops d q e) = []
step_queued (gives earlier later d net bytes e f) = []

unfoldable pub frames_queued : {y z : Senders} → Reach y z → List (Option (List ℕ))
unfolding step_queued
frames_queued here = []
frames_queued (next r s) = frames_queued r ++ step_queued s

-- The frames that are held, in front of the queue.
abbrev pub whole : Senders → Net
whole y = with_data y.net (y.held ++ y.net.async_send_data)

-- The frames that the device was given, that senders hold and that wait.
abbrev pub frames_in : Senders → List (Option (List ℕ))
frames_in y = all_frames (outbox (whole y))
