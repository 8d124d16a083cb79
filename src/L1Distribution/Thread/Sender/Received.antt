-- ===== src/L1Distribution/Thread/Sender/Received.antt =====
-- From the requests to what the receivers read, beside a sender whose call is two steps
-- (l1/L1DistributionHandler.cpp, socket/PCapHandler.cpp).
use na62_farm_lib_networking.Base.{
  ℕ, ◌≤◌, ◌≡◌, ◌∙◌, ap, List, [], ◌++◌, map, reverse, Option, ◌>>=◌,
}
use mathlib.Core.Path.{subst}
use na62_farm_lib_networking.Ethernet.Checksum.{Checksums}
use na62_farm_lib_networking.Mrp.{TriggerRawHdr}
use na62_farm_lib_networking.Mrp.Receiver.{read_frame}
use na62_farm_lib_networking.NetworkHandler.{Net}
use na62_farm_lib_networking.NetworkHandler.Outbox.{all_frames, outbox}
use na62_farm_lib_networking.L1Distribution.{L1DistributionHandler}
use na62_farm_lib_networking.L1Distribution.Thread.Invariant.{IsConsistent}
use na62_farm_lib_networking.L1Distribution.Thread.Started.{first_state}
use na62_farm_lib_networking.L1Distribution.Thread.Outbox.{Reach-in_order}
use na62_farm_lib_networking.L1Distribution.Thread.Interleaving.{Interleaves}
use na62_farm_lib_networking.L1Distribution.Thread.Batches.{headers, all_frames_of, in_order}
use na62_farm_lib_networking.L1Distribution.Thread.Received.{all_events, Reach-received}
use na62_farm_lib_networking.L1Distribution.Thread.Sender.{
  Sending, outside, Runs, RunsInBurst, AllSent, announced_by, put_by,
}
use na62_farm_lib_networking.L1Distribution.Thread.Sender.Whole.{whole, Runs-Matches}

-- The frames that the device was given, then the one that the sender holds, then those that wait.
abbrev pub frames_of_all : Sending → List (Option (List ℕ))
frames_of_all y = all_frames (outbox (whole y).state.net)

-- Take any run from a consistent state, beside one sender whose calls of DoSendQueuedFrames follow one
-- another, each of them two steps with those of the other threads between, and in which `sendto` always
-- works. The frames that the device was given, then the one that the sender has taken out, then those that
-- wait are what they were before, followed by the frames that the run put into the queue, in order: none
-- is lost, sent twice, changed or overtaken.
pub Runs-in_order :
    (c : Checksums) {y z : Sending} (r : Runs c y z)
    → IsConsistent (whole y).pushed (whole y).state
    → AllSent c r
    → frames_of_all z ≡ frames_of_all y ++ put_by c r
Runs-in_order c {y} r v g =
    let m = Runs-Matches c r in
    Reach-in_order c m.run v (m.given g) ∙ ap (◌++◌ (frames_of_all y)) m.put

-- Take any run within a burst from the thread's first state, which is consistent, with a limit of at most
-- 5457 triggers per MRP, beside one sender whose calls of DoSendQueuedFrames follow one another, each of
-- them two steps with those of the other threads between, and in which `sendto` always works.
-- There are batches of triggers such that
-- all that was requested is, in order: the batches, what the vector holds and what is still queued;
-- the frames that the device was given, that the sender has taken out and that wait are those from before the run,
-- followed by a mix of one frame for each header and batch with the announcements, each in order;
-- and from those frames a receiver reads, frame by frame, exactly the triggers of the batch.
pub Runs-received :
    (c : Checksums) (l1 : L1DistributionHandler) (net : Net) {z : Sending}
    (r : Runs c (outside (record { state = first_state l1 net; pushed = [] })) z)
    → IsConsistent [] (first_state l1 net)
    → RunsInBurst c r
    → AllSent c r
    → l1.max_triggers_per_l1mrp ≤ 5457
    → (bs : List (List TriggerRawHdr)) × (new : List (Option (List ℕ))) × ((whole z).pushed
        ≡ in_order bs
          ++ (reverse (whole z).state.multicast_requests ++ (whole z).state.l1.multicast_mrp_queue))
      × (frames_of_all z ≡ all_frames (outbox net) ++ new)
      × Interleaves (all_frames_of c (headers l1) bs) (announced_by c r) new
      × (map (λ f. f >>= read_frame) (all_frames_of c (headers l1) bs) ≡ all_events (headers l1) bs)
Runs-received c l1 net r v b g limit =
    let m = Runs-Matches c r in
    let (bs, new, pushed, frames, mixed, events) =
      Reach-received c l1 net m.run v (m.burst b) (m.given g) limit in
    (
      bs,
      new,
      pushed,
      frames,
      subst (λ told. Interleaves (all_frames_of c (headers l1) bs) told new) m.announced mixed,
      events,
    )
