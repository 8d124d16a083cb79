-- ===== src/L1Distribution/Thread/Awake.antt =====
-- Within a burst the thread never waits for a trigger that nobody requested
-- (l1/L1DistributionHandler.cpp).
use mathlib.Core.Path.{subst}
use na62_farm_lib_networking.Base.{
  ℕ, suc, ◌<◌, ◌≡◌, ◌∙◌, ◌⊎◌, inl, inr, refl, sym, ap, List, [], ◌∷◌, Option, some, Bool, true,
  false, arith, length, length-append, length-take, drop, ◌==◌, Bool-cases,
}
use na62_farm_lib_networking.Ethernet.Checksum.{Checksums}
use na62_farm_lib_networking.Mrp.{TriggerRawHdr, Event, generate_trigger_hdr}
use na62_farm_lib_networking.L1Distribution.{async_request_l1_data_multicast}
use na62_farm_lib_networking.L1Distribution.Sending.Batch.{async_send_mrp-Queues}
use na62_farm_lib_networking.L1Distribution.Thread.{
  Mark, filling, skipping, popping, sending, ThreadState, fill_step, skip_step, pop_step, send_step,
  mark_step, thread_step,
}
use na62_farm_lib_networking.L1Distribution.Thread.Invariant.{fills, IsConsistent}
use na62_farm_lib_networking.L1Distribution.Thread.Kept.{
  after_batch, send_step_lem, thread_step-IsConsistent,
}
use na62_farm_lib_networking.L1Distribution.Thread.Steps.{popped_one}
use na62_farm_lib_networking.L1Distribution.Thread.Progress.{run_thread, run_thread-suc}
use na62_farm_lib_networking.L1Distribution.Thread.InBurst.{StepsInBurst, IsInBurst}
use na62_farm_lib_networking.L1Distribution.Thread.System.{
  System, requests, loops, sends, announces, Step, Reach, here, next, Reach-IsConsistent,
}

-- Past the test of the filling loop there is a trigger to pop.
abbrev pub HasNext : ThreadState → Type 0
HasNext s = (fills s.mark ≡ false) ⊎ (0 < length s.l1.multicast_mrp_queue)

same_state : (a b : ThreadState) → some a ≡ some b → HasNext a → HasNext b
same_state a b e h = let same : a ≡ b = cc in subst HasNext same h

fill_step-HasNext :
    (s : ThreadState) (q : List TriggerRawHdr)
    → s.l1.multicast_mrp_queue ≡ q
    → HasNext (fill_step s q)
unfolding fill_step
fill_step-HasNext s [] e = inl refl
fill_step-HasNext s (hdr ∷ q) e =
    elim (Bool-cases (length s.multicast_requests == s.l1.max_triggers_per_l1mrp)) [
      | inl full ↦ rw full (inl refl)
      | inr more ↦ rw more (inr (let size = ap length e in omega arith))
    ]

pop_step-HasNext : (s : ThreadState) (q : List TriggerRawHdr) → HasNext s → HasNext (pop_step s q)
unfolding pop_step
pop_step-HasNext s [] h = h
pop_step-HasNext s (hdr ∷ q) h = inl refl

-- A step that sends, or finds nothing to send, ends before the test of the filling loop.
send_step-filling :
    (c : Checksums) (pushed : List TriggerRawHdr) (s s' : ThreadState) (ts : List TriggerRawHdr)
    → s.multicast_requests ≡ ts
    → send_step c s ts ≡ some s'
    → IsConsistent pushed s
    → s'.mark ≡ filling
unfolding send_step
send_step-filling c pushed s s' [] m e v =
    let same : record s { mark = filling } ≡ s' = cc in ap (λ x. x.mark) (sym same)
send_step-filling c pushed s s' (t ∷ ts) m e v =
    let max = s.l1.max_triggers_per_l1mrp in
    let r =
      async_send_mrp-Queues c s.l1 s.net (t ∷ ts) v.unicast_macs v.multicast_macs v.net_valid
        (let small = v.buffer_fits in omega (arith, length-take max (t ∷ ts))) in
    let after = after_batch pushed s (t ∷ ts) (drop max (t ∷ ts)) _ r.0 in
    let result : ◌≡◌ {A = Option ThreadState} (some after) (some s') =
      sym (send_step_lem pushed s c t ts (drop max (t ∷ ts)) _ r.0 r.1) ∙ e in
    let same : after ≡ s' = cc in ap (λ x. x.mark) (sym same)

thread_step-HasNext :
    (c : Checksums) (pushed : List TriggerRawHdr) (s s' : ThreadState)
    → thread_step c false s ≡ some s'
    → IsConsistent pushed s
    → HasNext s
    → HasNext s'
unfolding thread_step skip_step
thread_step-HasNext c pushed s s' e v h = go s.mark refl e
  where
    go : (m : Mark) → s.mark ≡ m → mark_step c false s m ≡ some s' → HasNext s'
    go filling m f =
        same_state (fill_step s s.l1.multicast_mrp_queue) s' f
          (fill_step-HasNext s s.l1.multicast_mrp_queue refl)
    go skipping m f =
        same_state (record s { mark = popping }) s' f
          (elim h [
            | inl idle ↦ let past : fills s.mark ≡ true = ap fills m in absurd cc
            | inr some_left ↦ inr some_left
          ])
    go popping m f =
        same_state (pop_step s s.l1.multicast_mrp_queue) s' f
          (pop_step-HasNext s s.l1.multicast_mrp_queue h)
    go sending m f = inl (ap fills (send_step-filling c pushed s s' s.multicast_requests refl f v))

request-HasNext :
    (s : ThreadState) (flush_burst : Bool) (event : Event) (z_suppressed : Bool)
    → HasNext s
    → HasNext
        (record s { l1 = async_request_l1_data_multicast flush_burst event z_suppressed s.l1 })
unfolding async_request_l1_data_multicast
request-HasNext s true event z_suppressed h = h
request-HasNext s false event z_suppressed (inl idle) = inl idle
request-HasNext s false event z_suppressed (inr left) = inr (
    omega (
      arith,
      length-append s.l1.multicast_mrp_queue (generate_trigger_hdr event z_suppressed ∷ []),
    ))

Step-HasNext :
    (c : Checksums) {y z : System} (s : Step c y z)
    → IsConsistent y.pushed y.state
    → StepsInBurst c s
    → HasNext y.state
    → HasNext z.state
unfolding StepsInBurst
Step-HasNext c {y} (requests flush_burst event z_suppressed) v b h =
    request-HasNext y.state flush_burst event z_suppressed h
Step-HasNext c {y} (loops flush_burst s e) v b h =
    thread_step-HasNext c y.pushed y.state s (ap (λ f. thread_step c f y.state) (sym b) ∙ e) v h
Step-HasNext c (sends sent net bytes e) v b h = h
Step-HasNext c (announces fresh) v b h = h

-- In every run within a burst from a state that has a trigger to pop where it pops one, so has the state
-- that is reached.
pub Reach-HasNext :
    (c : Checksums) {y z : System} (r : Reach c y z)
    → IsConsistent y.pushed y.state
    → IsInBurst c r
    → HasNext y.state
    → HasNext z.state
unfolding IsInBurst
Reach-HasNext c here v b h = h
Reach-HasNext c (next r s) v b h =
    Step-HasNext c s (Reach-IsConsistent c r v) b.1 (Reach-HasNext c r v b.0 h)

-- The thread comes back before the test of the filling loop.
abbrev Returns : Checksums → ThreadState → Type 0
Returns c s = (n : ℕ) × (s' : ThreadState) × (run_thread n c s ≡ some s') × (s'.mark ≡ filling)

one_more :
    (c : Checksums) (s s' : ThreadState)
    → thread_step c false s ≡ some s'
    → Returns c s'
    → Returns c s
one_more c s s' e (n, out, r, m) = (suc n, out, run_thread-suc n c s s' (some out) e r, m)

from_popping :
    (c : Checksums) (s : ThreadState) (q : List TriggerRawHdr)
    → s.mark ≡ popping
    → s.l1.multicast_mrp_queue ≡ q
    → 0 < length q
    → Returns c s
unfolding thread_step mark_step pop_step run_thread
from_popping c s [] m e left = absurd (omega arith)
from_popping c s (t ∷ q) m e left =
    one_more c s (popped_one s t q) (ap (mark_step c false s) m ∙ ap (λ l. some (pop_step s l)) e)
      (0, popped_one s t q, refl, refl)

pub thread-Returns :
    (c : Checksums) (pushed : List TriggerRawHdr) (s : ThreadState)
    → IsConsistent pushed s
    → HasNext s
    → Returns c s
unfolding thread_step mark_step skip_step run_thread
thread-Returns c pushed s v h = go s.mark refl h
  where
    go : (m : Mark) → s.mark ≡ m → HasNext s → Returns c s
    go filling m h' = (0, s, refl, m)
    go skipping m (inl idle) = let past : fills s.mark ≡ true = ap fills m in absurd cc
    go skipping m (inr left) =
        one_more c s (record s { mark = popping }) (ap (mark_step c false s) m)
          (from_popping c (record s { mark = popping }) s.l1.multicast_mrp_queue refl refl left)
    go popping m (inl idle) = let past : fills s.mark ≡ true = ap fills m in absurd cc
    go popping m (inr left) = from_popping c s s.l1.multicast_mrp_queue m refl left
    go sending m h' =
        let t = thread_step-IsConsistent c false pushed s v in
        one_more c s t.0 t.1 (
          0,
          t.0,
          refl,
          send_step-filling c pushed s t.0 s.multicast_requests refl
              (sym (ap (mark_step c false s) m) ∙ t.1) v,
        )
