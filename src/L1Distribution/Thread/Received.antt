-- ===== src/L1Distribution/Thread/Received.antt =====
-- From the requests to what the receivers read, over whole runs (l1/L1DistributionHandler.cpp,
-- socket/PCapHandler.cpp).
use mathlib.Core.List.{append_assoc, map-append}
use mathlib.Core.Path.{ap₂}
use na62_farm_lib_networking.Base.{
  ℕ, ◌≤◌, ◌≡◌, ◌∙◌, refl, sym, ap, List, [], ◌∷◌, ◌++◌, map, reverse, Option, some, arith, length,
  ◌>>=◌,
}
use na62_farm_lib_networking.Ethernet.Checksum.{Checksums}
use na62_farm_lib_networking.Mrp.{TriggerRawHdr, MrpFrameHdr, Event}
use na62_farm_lib_networking.Mrp.Receiver.{read_frame, event_of}
use na62_farm_lib_networking.NetworkHandler.{Net}
use na62_farm_lib_networking.NetworkHandler.Outbox.{AllGiven, all_put, all_frames, outbox}
use na62_farm_lib_networking.L1Distribution.{L1DistributionHandler}
use na62_farm_lib_networking.L1Distribution.Sending.Batch.{AllHaveMacs}
use na62_farm_lib_networking.L1Distribution.Sending.Received.{read_frame-make_frame}
use na62_farm_lib_networking.L1Distribution.Thread.Invariant.{IsConsistent}
use na62_farm_lib_networking.L1Distribution.Thread.Started.{first_state}
use na62_farm_lib_networking.L1Distribution.Thread.Outbox.{actions, Reach-in_order}
use na62_farm_lib_networking.L1Distribution.Thread.Interleaving.{Interleaves}
use na62_farm_lib_networking.L1Distribution.Thread.Batches.{
  batches, announcements, headers, frames_of, all_frames_of, in_order,
}
use na62_farm_lib_networking.L1Distribution.Thread.InBurst.{IsInBurst, KeepsAll, Reach-KeepsAll}
use na62_farm_lib_networking.L1Distribution.Thread.Carried.{AllSmall, Reach-Carries}
use na62_farm_lib_networking.L1Distribution.Thread.System.{System, Reach, Reach-IsConsistent}

-- What the receivers of a run read: for each batch and each header a list of events.
abbrev pub all_events : List MrpFrameHdr → List (List TriggerRawHdr) → List (Option (List Event))
all_events hdrs [] = []
all_events hdrs (b ∷ bs) = map (λ h. some (map event_of b)) hdrs ++ all_events hdrs bs

AllHaveMacs-append :
    (hs gs : List MrpFrameHdr) → AllHaveMacs hs → AllHaveMacs gs → AllHaveMacs (hs ++ gs)
AllHaveMacs-append [] gs p q = q
AllHaveMacs-append (h ∷ hs) gs p q = (p.0, AllHaveMacs-append hs gs p.1 q)

read_frames_of :
    (c : Checksums) (hdrs : List MrpFrameHdr) (b : List TriggerRawHdr)
    → AllHaveMacs hdrs
    → length b ≤ 5457
    → map (λ f. f >>= read_frame) (frames_of c hdrs b) ≡ map (λ h. some (map event_of b)) hdrs
read_frames_of c [] b m small = refl
read_frames_of c (h ∷ hs) b m small =
    ap₂ ◌∷◌ (read_frame-make_frame c h b m.0 small) (read_frames_of c hs b m.1 small)

read_all_frames_of :
    (c : Checksums) (hdrs : List MrpFrameHdr) (max : ℕ) (bs : List (List TriggerRawHdr))
    → AllHaveMacs hdrs
    → max ≤ 5457
    → AllSmall max bs
    → map (λ f. f >>= read_frame) (all_frames_of c hdrs bs) ≡ all_events hdrs bs
read_all_frames_of c hdrs max [] m limit small = refl
read_all_frames_of c hdrs max (b ∷ bs) m limit small =
    map-append (λ f. f >>= read_frame) (frames_of c hdrs b) (all_frames_of c hdrs bs)
    ∙ ap₂ ◌++◌ (read_frames_of c hdrs b m (let p = small.0 in omega arith))
        (read_all_frames_of c hdrs max bs m limit small.1)

-- Take any run of whole calls within a burst from the thread's first state, which is consistent, with a limit of at most 5457 triggers per
-- MRP and in which `sendto` always works. There are batches of triggers such that
-- all that was requested is, in order: the batches, what the vector holds and what is still queued;
-- the frames that the device was given and that wait are those from before the run, followed by a mix
-- of one frame for each header and batch with the announcements, each in order;
-- and from those frames a receiver reads, frame by frame, exactly the triggers of the batch.
pub Reach-received :
    (c : Checksums) (l1 : L1DistributionHandler) (net : Net) {z : System}
    (r : Reach c (record { state = first_state l1 net; pushed = [] }) z)
    → IsConsistent [] (first_state l1 net)
    → IsInBurst c r
    → AllGiven (actions c r)
    → l1.max_triggers_per_l1mrp ≤ 5457
    → (bs : List (List TriggerRawHdr)) × (new : List (Option (List ℕ))) × (z.pushed
        ≡ in_order bs ++ (reverse z.state.multicast_requests ++ z.state.l1.multicast_mrp_queue))
      × (all_frames (outbox z.state.net) ≡ all_frames (outbox net) ++ new)
      × Interleaves (all_frames_of c (headers l1) bs) (announcements c r) new
      × (map (λ f. f >>= read_frame) (all_frames_of c (headers l1) bs) ≡ all_events (headers l1) bs)
unfolding KeepsAll
Reach-received c l1 net {z} r v b g limit =
    let k = Reach-Carries c r v in
    let w = Reach-IsConsistent c r v in
    let all_kept = Reach-KeepsAll c r v b refl in
    let queue = z.state.l1.multicast_mrp_queue in
    (
      batches c r,
      all_put (actions c r),
      sym w.none_lost
          ∙ (ap (λ l. l ++ queue)
                (all_kept
                  ∙ (w.sent_once ∙ ap (λ l. l ++ reverse z.state.multicast_requests) k.recorded))
              ∙ append_assoc (in_order (batches c r)) (reverse z.state.multicast_requests) queue),
      Reach-in_order c r v g,
      k.mixed,
      read_all_frames_of c (headers l1) _ (batches c r)
          (AllHaveMacs-append _ _ v.unicast_macs v.multicast_macs) limit k.small,
    )
