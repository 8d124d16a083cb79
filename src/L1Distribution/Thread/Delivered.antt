-- ===== src/L1Distribution/Thread/Delivered.antt =====
-- All that was requested comes to be delivered (l1/L1DistributionHandler.cpp, socket/PCapHandler.cpp).
use mathlib.Core.Path.{subst, ap₂}
use mathlib.Core.List.{append-nil}
use na62_farm_lib_networking.Base.{
  ℕ, ◌≤◌, ◌<◌, ◌≡◌, ◌∙◌, refl, sym, ap, List, [], ◌++◌, map, reverse, Option, inl, some, ◌>>=◌,
}
use na62_farm_lib_networking.Ethernet.Checksum.{Checksums}
use na62_farm_lib_networking.Mrp.{TriggerRawHdr}
use na62_farm_lib_networking.Mrp.Receiver.{read_frame}
use na62_farm_lib_networking.NetworkHandler.{Net}
use na62_farm_lib_networking.NetworkHandler.Queued.{queued}
use na62_farm_lib_networking.NetworkHandler.Outbox.{AllGiven, all_frames, outbox}
use na62_farm_lib_networking.L1Distribution.{L1DistributionHandler}
use na62_farm_lib_networking.L1Distribution.Thread.Invariant.{IsConsistent}
use na62_farm_lib_networking.L1Distribution.Thread.Started.{first_state}
use na62_farm_lib_networking.L1Distribution.Thread.Progress.{run_thread-Drains}
use na62_farm_lib_networking.L1Distribution.Thread.Outbox.{actions}
use na62_farm_lib_networking.L1Distribution.Thread.Interleaving.{Interleaves}
use na62_farm_lib_networking.L1Distribution.Thread.Batches.{
  announcements, headers, all_frames_of, in_order,
}
use na62_farm_lib_networking.L1Distribution.Thread.InBurst.{IsInBurst}
use na62_farm_lib_networking.L1Distribution.Thread.Carried.{Reach-Carries}
use na62_farm_lib_networking.L1Distribution.Thread.Received.{all_events, Reach-received}
use na62_farm_lib_networking.L1Distribution.Thread.Awake.{Reach-HasNext, thread-Returns}
use na62_farm_lib_networking.L1Distribution.Thread.Extended.{
  Reach-trans, run_thread-Extends, senders-Sent,
}
use na62_farm_lib_networking.L1Distribution.Thread.System.{System, Reach, Reach-IsConsistent}

given_all : (net : Net) → net.async_send_data ≡ [] → all_frames (outbox net) ≡ map some net.wire
given_all net e =
    ap (λ q. map some net.wire ++ queued net.heap q) e ∙ append-nil (map some net.wire)

-- Take any run of whole calls within a burst from the thread's first state, which is consistent, with a limit of one to 5457 triggers per
-- MRP and in which `sendto` always works. Steps that can follow it lead to a state in which the request
-- queue, the vector and the send queue are empty. There are batches that are all that the run
-- requested, in order; the device was given the frames that were there before the run, followed by a mix
-- of one frame for each header and batch with the announcements of the run, each in order; and a receiver
-- reads from those frames, frame by frame, exactly the triggers of the batch.
pub Reach-delivers :
    (c : Checksums) (l1 : L1DistributionHandler) (net : Net) {z : System}
    (r : Reach c (record { state = first_state l1 net; pushed = [] }) z)
    → IsConsistent [] (first_state l1 net)
    → IsInBurst c r
    → AllGiven (actions c r)
    → 0 < l1.max_triggers_per_l1mrp
    → l1.max_triggers_per_l1mrp ≤ 5457
    → (w : System) × Reach c z w
      × (w.state.l1.multicast_mrp_queue ≡ [])
      × (w.state.multicast_requests ≡ [])
      × (w.state.net.async_send_data ≡ [])
      × (bs : List (List TriggerRawHdr)) × (new : List (Option (List ℕ))) × (z.pushed ≡ in_order bs)
      × (map some w.state.net.wire ≡ all_frames (outbox net) ++ new)
      × Interleaves (all_frames_of c (headers l1) bs) (announcements c r) new
      × (map (λ f. f >>= read_frame) (all_frames_of c (headers l1) bs) ≡ all_events (headers l1) bs)
Reach-delivers c l1 net {z} r v b g pos limit =
    let awake = Reach-HasNext c r v b (inl refl) in
    let (k, s', f, m) = thread-Returns c z.pushed z.state (Reach-IsConsistent c r v) awake in
    let x' = run_thread-Extends k c r s' b g f in
    let more = subst (λ j. 0 < j) (sym (Reach-Carries c x'.longer v).same_max) pos in
    let (n, s, e, v', d) =
      run_thread-Drains c z.pushed s' m more (Reach-IsConsistent c x'.longer v) in
    let x = run_thread-Extends n c x'.longer s x'.in_burst x'.given e in
    let (w, sent) = senders-Sent _ c x.longer v x.in_burst x.given refl in
    let y = sent.extends in
    let (bs, new, pushed, frames, mixed, events) =
      Reach-received c l1 net y.longer v y.in_burst y.given limit in
    let no_queue = ap (λ l. l.multicast_mrp_queue) sent.same_handler ∙ d.queue_empty in
    let no_vector = sent.same_vector ∙ d.vector_empty in
    (
      w,
      Reach-trans c x'.onward (Reach-trans c x.onward y.onward),
      no_queue,
      no_vector,
      sent.none_waits,
      bs,
      new,
      sym (y.same_pushed ∙ (x.same_pushed ∙ x'.same_pushed))
          ∙ (pushed
              ∙ (ap₂ (λ l q. in_order bs ++ (reverse l ++ q)) no_vector no_queue
                  ∙ append-nil (in_order bs))),
      sym (given_all w.state.net sent.none_waits) ∙ frames,
      subst (λ a. Interleaves (all_frames_of c (headers l1) bs) a new)
          (y.same_announced ∙ (x.same_announced ∙ x'.same_announced)) mixed,
      events,
    )
