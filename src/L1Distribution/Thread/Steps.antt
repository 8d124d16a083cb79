-- ===== src/L1Distribution/Thread/Steps.antt =====
-- Single steps of the thread's loops (l1/L1DistributionHandler.cpp).
use mathlib.Core.Path.{subst}
use na62_farm_lib_networking.Base.{
  ◌-◌, ◌≤◌, ◌≡◌, ◌∙◌, refl, ap, sym, List, [], ◌∷◌, ◌++◌, reverse, some, false, arith, ◌==◌,
  if◌then◌else◌, length, take, drop, take_all, drop_all,
}
use na62_farm_lib_networking.Ethernet.Checksum.{Checksums}
use na62_farm_lib_networking.Mrp.{TriggerRawHdr}
use na62_farm_lib_networking.L1Distribution.Sending.Batch.{async_send_mrp-Queues}
use na62_farm_lib_networking.L1Distribution.Thread.{
  filling, skipping, popping, sending, kept, ThreadState, pop_queue, fill_step, skip_step, pop_step,
  send_step, mark_step, thread_step, taken,
}
use na62_farm_lib_networking.L1Distribution.Thread.Invariant.{IsConsistent}
use na62_farm_lib_networking.L1Distribution.Thread.Kept.{
  after_batch, send_step_lem, thread_step-IsConsistent, outcome_IsConsistent,
}

-- What a batch leaves.
pub record Batch (s s' : ThreadState) : Type 0 where
  pub to_filling : s'.mark ≡ filling
  pub emptied : s'.multicast_requests ≡ []
  pub same_queue : s'.l1.multicast_mrp_queue ≡ s.l1.multicast_mrp_queue
  pub same_max : s'.l1.max_triggers_per_l1mrp ≡ s.l1.max_triggers_per_l1mrp
  pub batch_sent : s'.trace.sent ≡ s.trace.sent ++ reverse s.multicast_requests

pub send_step-Batch :
    (c : Checksums) (pushed : List TriggerRawHdr) (s : ThreadState) (t : TriggerRawHdr)
    (ts : List TriggerRawHdr)
    → s.multicast_requests ≡ t ∷ ts
    → IsConsistent pushed s
    → (s' : ThreadState) × (send_step c s (t ∷ ts) ≡ some s') × Batch s s'
send_step-Batch c pushed s t ts e v =
    let max = s.l1.max_triggers_per_l1mrp in
    let fits : length (t ∷ ts) ≤ max = subst (λ l. length l ≤ max) e v.bounded in
    let none_left = drop_all max (t ∷ ts) fits in
    let size : length (take max (t ∷ ts)) ≡ length (t ∷ ts) =
      ap length (take_all max (t ∷ ts) fits) in
    let whole : taken (t ∷ ts) (drop max (t ∷ ts)) ≡ t ∷ ts =
      rw none_left (take_all (length (t ∷ ts) - 0) (t ∷ ts) (omega arith)) in
    let r =
      async_send_mrp-Queues c s.l1 s.net (t ∷ ts) v.unicast_macs v.multicast_macs v.net_valid
        (let fits' = v.buffer_fits in omega arith) in
    (
      after_batch pushed s (t ∷ ts) (drop max (t ∷ ts)) _ r.0,
      send_step_lem pushed s c t ts (drop max (t ∷ ts)) _ r.0 r.1,
      record {
        to_filling = refl;
        emptied = none_left;
        same_queue = refl;
        same_max = refl;
        batch_sent = ap (λ l. s.trace.sent ++ reverse l) (whole ∙ sym e);
      },
    )

pub next_IsConsistent :
    (c : Checksums) (pushed : List TriggerRawHdr) (s s' : ThreadState)
    → thread_step c false s ≡ some s'
    → IsConsistent pushed s
    → IsConsistent pushed s'
next_IsConsistent c pushed s s' e v =
    outcome_IsConsistent pushed _ s' e (thread_step-IsConsistent c false pushed s v)

-- The state after a trigger was popped into the vector.
abbrev pub popped_one : ThreadState → TriggerRawHdr → List TriggerRawHdr → ThreadState
popped_one s t q = record (pop_queue s q (kept t)) {
  multicast_requests = t ∷ s.multicast_requests;
  mark = filling;
}

pub step_skipping :
    (c : Checksums) (s : ThreadState) (t : TriggerRawHdr) (q : List TriggerRawHdr)
    → s.mark ≡ filling
    → s.l1.multicast_mrp_queue ≡ t ∷ q
    → (length s.multicast_requests == s.l1.max_triggers_per_l1mrp) ≡ false
    → thread_step c false s ≡ some (record s { mark = skipping })
unfolding thread_step mark_step fill_step
step_skipping c s t q m e more =
    ap (mark_step c false s) m
    ∙ (ap (λ l. some (fill_step s l)) e
        ∙ ap (λ b. some (if b then record s { mark = sending } else record s { mark = skipping }))
            more)

pub step_sending :
    (c : Checksums) (s : ThreadState)
    → s.mark ≡ filling
    → fill_step s s.l1.multicast_mrp_queue ≡ record s { mark = sending }
    → thread_step c false s ≡ some (record s { mark = sending })
unfolding thread_step mark_step
step_sending c s m e = ap (mark_step c false s) m ∙ ap some e

pub step_waiting :
    (c : Checksums) (s : ThreadState)
    → thread_step c false (record s { mark = skipping }) ≡ some (record s { mark = popping })
unfolding thread_step mark_step skip_step
step_waiting c s = refl

pub step_popping :
    (c : Checksums) (s : ThreadState) (t : TriggerRawHdr) (q : List TriggerRawHdr)
    → s.l1.multicast_mrp_queue ≡ t ∷ q
    → thread_step c false (record s { mark = popping }) ≡ some (popped_one s t q)
unfolding thread_step mark_step pop_step
step_popping c s t q e = ap (λ l. some (pop_step (record s { mark = popping }) l)) e
