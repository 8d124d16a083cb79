-- ===== src/L1Distribution/Thread.antt =====
-- `L1DistributionHandler::thread` (l1/L1DistributionHandler.cpp) as a machine that steps beside the other
-- threads: those that request data, and those that send what is queued.
--
-- `mark` is the loop that the thread stands in. The vector's back is at the head of its list. The
-- fields under `trace` record what happened and decide nothing.
pub mod Invariant
pub mod Kept
pub mod Started
pub mod Steps
pub mod Progress
pub mod System
pub mod Outbox
pub mod Interleaving
pub mod Batches
pub mod InBurst
pub mod Carried
pub mod Received
pub mod Extended
pub mod Awake
pub mod Delivered
pub mod Program
pub mod Sender
mod Example
mod Tests
use na62_farm_lib_networking.Base.{
  ℕ, List, [], ◌∷◌, ◌++◌, reverse, Option, none, some, Bool, true, false, ◌-◌, ◌==◌, if◌then◌else◌,
  length, take,
}
use na62_farm_lib_networking.Ethernet.Checksum.{Checksums}
use na62_farm_lib_networking.Mrp.{TriggerRawHdr}
use na62_farm_lib_networking.NetworkHandler.{Net}
use na62_farm_lib_networking.L1Distribution.{L1DistributionHandler}
use na62_farm_lib_networking.L1Distribution.Sending.{async_send_mrp}

-- The test of the filling loop, the loop that skips, the loop that waits for a trigger, and the test
-- of `multicastRequests.size() > 0`.
pub data Mark : Type 0 where
  filling skipping popping sending : Mark

-- A trigger that was popped was deleted at once, or put into the vector.
pub data Popped : Type 0 where
  skipped : TriggerRawHdr → Popped
  kept : TriggerRawHdr → Popped

-- `history` has the triggers popped so far, oldest first, and `sent` those that calls of `Async_SendMRP`
-- took: the calls in order, and the triggers of one in the order in which they were popped.
pub record Trace : Type 0 where
  pub history : List Popped
  pub sent : List TriggerRawHdr

pub record ThreadState : Type 0 where
  pub l1 : L1DistributionHandler
  pub net : Net
  pub multicast_requests : List TriggerRawHdr
  pub mark : Mark
  pub trace : Trace

abbrev pub pop_queue : ThreadState → List TriggerRawHdr → Popped → ThreadState
pop_queue s queue popped = record s {
  l1 = record s.l1 { multicast_mrp_queue = queue };
  trace = record s.trace { history = s.trace.history ++ popped ∷ [] };
}

-- `size != MAX && !empty()`
pub fill_step : ThreadState → List TriggerRawHdr → ThreadState
fill_step s [] = record s { mark = sending }
fill_step s (hdr ∷ queue) =
    if length s.multicast_requests == s.l1.max_triggers_per_l1mrp
    then record s { mark = sending }
    else record s { mark = skipping }

-- `while (flushBurst() && try_pop(hdr)) delete hdr`
pub skip_step : Bool → ThreadState → List TriggerRawHdr → ThreadState
skip_step false s queue = record s { mark = popping }
skip_step true s [] = record s { mark = popping }
skip_step true s (hdr ∷ queue) = pop_queue s queue (skipped hdr)

-- `while (!try_pop(hdr)) usleep(10)`, then the push into the vector.
pub pop_step : ThreadState → List TriggerRawHdr → ThreadState
pop_step s [] = s
pop_step s (hdr ∷ queue) = record (pop_queue s queue (kept hdr)) {
  multicast_requests = hdr ∷ s.multicast_requests;
  mark = filling;
}

-- What a call took out of the vector, when it left `rest`.
abbrev pub taken : List TriggerRawHdr → List TriggerRawHdr → List TriggerRawHdr
taken requests rest = take (length requests - length rest) requests

-- The wait for a full vector is only a sleep. All pushes of `Async_SendMRP` are one step here, though the
-- source sleeps between them. `none` is an access out of range.
pub send_step : Checksums → ThreadState → List TriggerRawHdr → Option ThreadState
send_step c s [] = some (record s { mark = filling })
send_step c s (hdr ∷ requests) = elim (async_send_mrp c (hdr ∷ requests) s.l1 s.net) [
  | none ↦ none
  | some (rest, l1, net) ↦ some (record {
    l1 = l1;
    net = net;
    multicast_requests = rest;
    mark = filling;
    trace = record s.trace { sent = s.trace.sent ++ reverse (taken (hdr ∷ requests) rest) };
  })
]

mark_step : Checksums → Bool → ThreadState → Mark → Option ThreadState
mark_step c flush_burst s filling = some (fill_step s s.l1.multicast_mrp_queue)
mark_step c flush_burst s skipping = some (skip_step flush_burst s s.l1.multicast_mrp_queue)
mark_step c flush_burst s popping = some (pop_step s s.l1.multicast_mrp_queue)
mark_step c flush_burst s sending = send_step c s s.multicast_requests

unfoldable pub thread_step : Checksums → Bool → ThreadState → Option ThreadState
unfolding mark_step
thread_step c flush_burst s = mark_step c flush_burst s s.mark
