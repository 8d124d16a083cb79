-- ===== src/L1Distribution/Thread/Outbox.antt =====
-- What the threads together do to the send queue and the device (l1/L1DistributionHandler.cpp,
-- socket/PCapHandler.cpp).
use mathlib.Core.List.{append-nil}
use na62_farm_lib_networking.Base.{
  ℕ, ◌≡◌, ◌∙◌, refl, sym, ap, List, [], ◌∷◌, ◌++◌, map, Option, some, Bool, true, false, arith,
  length, length-take, take, drop,
}
use na62_farm_lib_networking.Ethernet.Checksum.{Checksums}
use na62_farm_lib_networking.Ethernet.Frames.Wire.{announced}
use na62_farm_lib_networking.Network.{arp_hdr_bytes}
use na62_farm_lib_networking.Mrp.{TriggerRawHdr}
use na62_farm_lib_networking.NetworkHandler.{Net}
use na62_farm_lib_networking.NetworkHandler.Queued.{queued}
use na62_farm_lib_networking.NetworkHandler.Outbox.{
  AllGiven, all_put, all_frames, perform_all-order, Outbox, Action, puts, takes, perform,
  perform_all, outbox, outbox-do_send_queued_frames, outbox-thread_round,
}
use na62_farm_lib_networking.L1Distribution.{L1DistributionHandler}
use na62_farm_lib_networking.L1Distribution.Sending.{make_frame}
use na62_farm_lib_networking.Mrp.{payload}
use na62_farm_lib_networking.L1Distribution.Sending.Batch.{Queues, async_send_mrp-Queues}
use na62_farm_lib_networking.L1Distribution.Thread.{
  Mark, filling, skipping, popping, sending, ThreadState, fill_step, skip_step, pop_step, send_step,
  mark_step, thread_step,
}
use na62_farm_lib_networking.L1Distribution.Thread.Invariant.{IsConsistent}
use na62_farm_lib_networking.L1Distribution.Thread.Kept.{after_batch, send_step_lem}
use na62_farm_lib_networking.L1Distribution.Thread.System.{
  System, requests, loops, sends, announces, Step, Reach, here, next, Reach-IsConsistent,
}

-- One frame for each request header, unicast first, over the triggers that one MRP takes.
unfoldable pub mrp_frames :
    Checksums → L1DistributionHandler → List TriggerRawHdr → List (Option (List ℕ))
mrp_frames c l1 triggers =
    let batch = take l1.max_triggers_per_l1mrp triggers in
    map (make_frame c (length batch) (payload batch))
      (l1.l1_unicast_request_hdrs ++ l1.l1_multicast_request_hdrs)

-- The frames that a step of the thread queues: none but where it sends a vector that is not empty.
unfoldable pub thread_frames :
    Checksums → L1DistributionHandler → Mark → List TriggerRawHdr → List (Option (List ℕ))
unfolding mrp_frames
thread_frames c l1 filling triggers = []
thread_frames c l1 skipping triggers = []
thread_frames c l1 popping triggers = []
thread_frames c l1 sending [] = []
thread_frames c l1 sending (t ∷ ts) = mrp_frames c l1 (t ∷ ts)

unfoldable pub action : (c : Checksums) {y z : System} → Step c y z → Action
unfolding thread_frames
action c (requests flush_burst event z_suppressed) = puts []
action c {y} (loops flush_burst s e) =
    puts (thread_frames c y.state.l1 y.state.mark y.state.multicast_requests)
action c (sends sent net bytes e) = takes sent
action c {y} (announces fresh) =
    let me = y.state.net.my_address in
    puts (some (arp_hdr_bytes (announced me.my_mac me.my_ip)) ∷ [])

unfoldable pub actions : (c : Checksums) {y z : System} → Reach c y z → List Action
unfolding action
actions c here = []
actions c (next r s) = actions c r ++ action c s ∷ []

nothing_put : (a b : Net) → b ≡ a → outbox b ≡ perform (puts []) (outbox a)
unfolding perform
nothing_put a b same =
    ap outbox same ∙ ap (λ w. record { waiting = w; given = map some a.wire }) (sym (append-nil _))

frames_put :
    (frames : List (Option (List ℕ))) (a b : Net)
    → Queues frames a b
    → outbox b ≡ perform (puts frames) (outbox a)
unfolding perform
frames_put frames a b q =
    ap (λ w. record { waiting = w; given = map some b.wire }) q.behind
    ∙ ap (λ l. record { waiting = queued a.heap a.async_send_data ++ frames; given = map some l })
        q.wire

fill_step-net : (s : ThreadState) (queue : List TriggerRawHdr) → (fill_step s queue).net ≡ s.net
unfolding fill_step
fill_step-net s [] = refl
fill_step-net s (hdr ∷ queue) = ground arith

skip_step-net :
    (flush_burst : Bool) (s : ThreadState) (queue : List TriggerRawHdr)
    → (skip_step flush_burst s queue).net ≡ s.net
unfolding skip_step
skip_step-net false s queue = refl
skip_step-net true s [] = refl
skip_step-net true s (hdr ∷ queue) = refl

pop_step-net : (s : ThreadState) (queue : List TriggerRawHdr) → (pop_step s queue).net ≡ s.net
unfolding pop_step
pop_step-net s [] = refl
pop_step-net s (hdr ∷ queue) = refl

result_net : (a b : ThreadState) → some a ≡ some b → b.net ≡ a.net
result_net a b e = let same : a ≡ b = cc in ap (λ x. x.net) (sym same)

send_step-outbox :
    (c : Checksums) (pushed : List TriggerRawHdr) (s s' : ThreadState)
    (triggers : List TriggerRawHdr)
    → s.multicast_requests ≡ triggers
    → send_step c s triggers ≡ some s'
    → IsConsistent pushed s
    → outbox s'.net ≡ perform (puts (thread_frames c s.l1 sending triggers)) (outbox s.net)
unfolding send_step thread_frames mrp_frames
send_step-outbox c pushed s s' [] m e v = nothing_put s.net s'.net (result_net _ s' e)
send_step-outbox c pushed s s' (t ∷ ts) m e v =
    let r =
      async_send_mrp-Queues c s.l1 s.net (t ∷ ts) v.unicast_macs v.multicast_macs v.net_valid (
        let fits = v.buffer_fits in
        omega (arith, length-take s.l1.max_triggers_per_l1mrp (t ∷ ts))) in
    let after = after_batch pushed s (t ∷ ts) (drop s.l1.max_triggers_per_l1mrp (t ∷ ts)) _ r.0 in
    ap outbox (
      result_net after s' (
        sym (send_step_lem pushed s c t ts (drop s.l1.max_triggers_per_l1mrp (t ∷ ts)) _ r.0 r.1)
        ∙ e))
    ∙ frames_put _ s.net r.0 r.2

thread_step-outbox :
    (c : Checksums) (flush_burst : Bool) (pushed : List TriggerRawHdr) (s s' : ThreadState)
    → thread_step c flush_burst s ≡ some s'
    → IsConsistent pushed s
    → outbox s'.net
      ≡ perform (puts (thread_frames c s.l1 s.mark s.multicast_requests)) (outbox s.net)
unfolding thread_step thread_frames
thread_step-outbox c flush_burst pushed s s' e v = go s.mark e
  where
    go :
        (m : Mark)
        → mark_step c flush_burst s m ≡ some s'
        → outbox s'.net
          ≡ perform (puts (thread_frames c s.l1 m s.multicast_requests)) (outbox s.net)
    go filling f =
        nothing_put s.net s'.net (result_net _ s' f ∙ fill_step-net s s.l1.multicast_mrp_queue)
    go skipping f =
        nothing_put s.net s'.net
          (result_net _ s' f ∙ skip_step-net flush_burst s s.l1.multicast_mrp_queue)
    go popping f =
        nothing_put s.net s'.net (result_net _ s' f ∙ pop_step-net s s.l1.multicast_mrp_queue)
    go sending f = send_step-outbox c pushed s s' s.multicast_requests refl f v

perform_all-snoc :
    (earlier : List Action) (a : Action) (o : Outbox)
    → perform_all (earlier ++ a ∷ []) o ≡ perform a (perform_all earlier o)
unfolding perform_all
perform_all-snoc [] a o = refl
perform_all-snoc (b ∷ earlier) a o = perform_all-snoc earlier a (perform b o)

-- A step of any of the threads does to the outbox what its action says.
Step-outbox :
    (c : Checksums) {y z : System} (s : Step c y z)
    → IsConsistent y.pushed y.state
    → outbox z.state.net ≡ perform (action c s) (outbox y.state.net)
unfolding action
Step-outbox c {y} (requests flush_burst event z_suppressed) v = nothing_put y.state.net _ refl
Step-outbox c {y} (loops flush_burst s e) v =
    thread_step-outbox c flush_burst y.pushed y.state s e v
Step-outbox c {y} (sends sent net bytes e) v =
    outbox-do_send_queued_frames sent y.state.net net bytes v.net_valid e
Step-outbox c {y} (announces fresh) v = outbox-thread_round fresh y.state.net v.net_valid

-- In every run of whole batches and whole calls from a consistent state the program does what a queue of frames does, one action for
-- each step, in whatever order the threads take their steps. A step of the thread puts one frame for
-- each unicast and then each multicast header if it sends a vector with triggers, made of the
-- triggers that one MRP takes, and nothing otherwise; an announcement puts one ARP request; a call
-- that sends takes the first frame out, unless there is none, and the device is given its bytes if
-- `sendto` works.
pub Reach-outbox :
    (c : Checksums) {y z : System} (r : Reach c y z)
    → IsConsistent y.pushed y.state
    → outbox z.state.net ≡ perform_all (actions c r) (outbox y.state.net)
unfolding perform_all actions
Reach-outbox c here v = refl
Reach-outbox c {y} (next {z} r s) v =
    Step-outbox c s (Reach-IsConsistent c r v)
    ∙ (ap (perform (action c s)) (Reach-outbox c r v)
        ∙ sym (perform_all-snoc (actions c r) (action c s) (outbox y.state.net)))

-- In every run of whole calls from a consistent state in which `sendto` always works, the frames that the device was
-- given and behind them those that wait are what they were before, followed by the frames that
-- the run put into the queue, in order: none is lost, sent twice, changed or overtaken.
pub Reach-in_order :
    (c : Checksums) {y z : System} (r : Reach c y z)
    → IsConsistent y.pushed y.state
    → AllGiven (actions c r)
    → all_frames (outbox z.state.net) ≡ all_frames (outbox y.state.net) ++ all_put (actions c r)
Reach-in_order c {y} r v g =
    ap all_frames (Reach-outbox c r v) ∙ perform_all-order (actions c r) (outbox y.state.net) g
