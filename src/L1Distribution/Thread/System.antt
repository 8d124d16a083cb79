-- ===== src/L1Distribution/Thread/System.antt =====
-- The thread beside the others: a step relation, and what holds in every state that can be reached.
use mathlib.Core.List.{append_assoc}
use na62_farm_lib_networking.Base.{
  ℕ, ◌≡◌, ◌∙◌, ap, sym, List, [], ◌∷◌, ◌++◌, some, Bool, true, false, if◌then◌else◌,
}
use na62_farm_lib_networking.Ethernet.Checksum.{Checksums}
use na62_farm_lib_networking.Mrp.{TriggerRawHdr, Event, generate_trigger_hdr}
use na62_farm_lib_networking.NetworkHandler.{Net}
use na62_farm_lib_networking.NetworkHandler.Safety.{NetIsValid}
use na62_farm_lib_networking.NetworkHandler.PCap
use na62_farm_lib_networking.NetworkHandler.PCap.Sending.{
  do_send_queued_frames-valid, do_send_queued_frames-some,
}
use na62_farm_lib_networking.NetworkHandler.PCap.Announcing.{thread_round-NetIsValid}
use na62_farm_lib_networking.L1Distribution.{async_request_l1_data_multicast}
use na62_farm_lib_networking.L1Distribution.Thread.{ThreadState, thread_step}
use na62_farm_lib_networking.L1Distribution.Thread.Invariant.{IsConsistent, popped}
use na62_farm_lib_networking.L1Distribution.Thread.Kept.{
  thread_step-IsConsistent, outcome_IsConsistent,
}

-- A state of the program, with all the triggers that were put into the queue, oldest first.
pub record System : Type 0 where
  pub state : ThreadState
  pub pushed : List TriggerRawHdr

-- A call of `Async_RequestL1DataMulticast`.
abbrev pub request : Bool → Event → Bool → System → System
request flush_burst event z_suppressed y = record {
  state = record y.state {
    l1 = async_request_l1_data_multicast flush_burst event z_suppressed y.state.l1;
  };
  pushed =
      if flush_burst then y.pushed else y.pushed ++ generate_trigger_hdr event z_suppressed ∷ [];
}

abbrev pub with_net : System → Net → System
with_net y net = record y { state = record y.state { net = net } }

-- Any of: a request, a step of the thread, a queued frame that is sent, an announcement.
pub data Step (c : Checksums) (y : System) : System → Type 0 where
  requests :
      (flush_burst : Bool) (event : Event) (z_suppressed : Bool)
      → Step c y (request flush_burst event z_suppressed y)
  loops :
      (flush_burst : Bool) (s : ThreadState)
      → thread_step c flush_burst y.state ≡ some s
      → Step c y (record y { state = s })
  sends :
      (sent : Bool) (net : Net) (bytes : ℕ)
      → PCap.do_send_queued_frames sent y.state.net ≡ some (net, bytes)
      → Step c y (with_net y net)
  announces : (fresh : List ℕ) → Step c y (with_net y (PCap.thread_round fresh y.state.net))

pub data Reach (c : Checksums) (y : System) : System → Type 0 where
  here : Reach c y y
  next : {z w : System} → Reach c y z → Step c z w → Reach c y w

-- A request puts its trigger at the end of the queue, or does nothing after the burst.
request-IsConsistent :
    (flush_burst : Bool) (event : Event) (z_suppressed : Bool) (y : System)
    → IsConsistent y.pushed y.state
    → IsConsistent
        (request flush_burst event z_suppressed y).pushed
        (request flush_burst event z_suppressed y).state
unfolding async_request_l1_data_multicast
request-IsConsistent true event z_suppressed y v = record {
  net_valid = v.net_valid;
  unicast_macs = v.unicast_macs;
  multicast_macs = v.multicast_macs;
  buffer_fits = v.buffer_fits;
  bounded = v.bounded;
  room = v.room;
  none_lost = v.none_lost;
  sent_once = v.sent_once;
  counted = v.counted;
}
request-IsConsistent false event z_suppressed y v = record {
  net_valid = v.net_valid;
  unicast_macs = v.unicast_macs;
  multicast_macs = v.multicast_macs;
  buffer_fits = v.buffer_fits;
  bounded = v.bounded;
  room = v.room;
  none_lost =
      sym (append_assoc (popped y.state.trace.history) y.state.l1.multicast_mrp_queue _)
      ∙ ap (λ l. l ++ generate_trigger_hdr event z_suppressed ∷ []) v.none_lost;
  sent_once = v.sent_once;
  counted = v.counted;
}

with_net-IsConsistent :
    (y : System) (net : Net)
    → NetIsValid net
    → IsConsistent y.pushed y.state
    → IsConsistent y.pushed (with_net y net).state
with_net-IsConsistent y net n v = record {
  net_valid = n;
  unicast_macs = v.unicast_macs;
  multicast_macs = v.multicast_macs;
  buffer_fits = v.buffer_fits;
  bounded = v.bounded;
  room = v.room;
  none_lost = v.none_lost;
  sent_once = v.sent_once;
  counted = v.counted;
}

Step-IsConsistent :
    (c : Checksums) {y z : System}
    → Step c y z
    → IsConsistent y.pushed y.state
    → IsConsistent z.pushed z.state
Step-IsConsistent c {y} (requests flush_burst event z_suppressed) v =
    request-IsConsistent flush_burst event z_suppressed y v
Step-IsConsistent c {y} (loops flush_burst s e) v =
    outcome_IsConsistent y.pushed _ s e (thread_step-IsConsistent c flush_burst y.pushed y.state v)
Step-IsConsistent c {y} (sends sent net bytes e) v =
    with_net-IsConsistent y net
      (do_send_queued_frames-valid sent y.state.net net bytes v.net_valid e).0 v
Step-IsConsistent c {y} (announces fresh) v =
    with_net-IsConsistent y _ (thread_round-NetIsValid fresh y.state.net v.net_valid) v

-- Every state that is reached from a consistent one, in whatever order the threads take their steps,
-- is consistent: the send queue can be read and freed safely, no more triggers wait in the vector
-- than an MRP may have, every trigger that was pushed is popped once or still queued, in order, and
-- those kept were taken once into an MRP, in order, or are still in the vector; the counter is that of
-- those taken, modulo 2^64.
pub Reach-IsConsistent :
    (c : Checksums) {y z : System}
    → Reach c y z
    → IsConsistent y.pushed y.state
    → IsConsistent z.pushed z.state
Reach-IsConsistent c here v = v
Reach-IsConsistent c (next r s) v = Step-IsConsistent c s (Reach-IsConsistent c r v)

-- In every state that is reached from a consistent one, the thread's next step returns a state,
-- whatever `flushBurst()` says, and so does a sender's next call, whether `sendto` works or not: neither
-- goes out of range, uses a freed buffer or frees one twice.
pub Reach-safe :
    (c : Checksums) {y z : System} (flush_burst sent : Bool)
    → Reach c y z
    → IsConsistent y.pushed y.state
    → ((s : ThreadState) × (thread_step c flush_burst z.state ≡ some s))
      × ((out : Net) × (bytes : ℕ) × (PCap.do_send_queued_frames sent z.state.net
            ≡ some (out, bytes)))
Reach-safe c {z = z} flush_burst sent r v =
    let w = Reach-IsConsistent c r v in
    let t = thread_step-IsConsistent c flush_burst z.pushed z.state w in
    let d = do_send_queued_frames-some sent z.state.net w.net_valid in ((t.0, t.1), (d.0, d.1, d.2))
