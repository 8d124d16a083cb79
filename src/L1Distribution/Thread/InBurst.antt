-- ===== src/L1Distribution/Thread/InBurst.antt =====
-- Runs within a burst, in which the thread keeps every trigger that it pops (l1/L1DistributionHandler.cpp).
use mathlib.Core.Path.{subst}
use na62_farm_lib_networking.Base.{
  ◌≡◌, ◌∙◌, refl, sym, ap, List, [], ◌∷◌, ◌++◌, some, false, arith, drop, length-take,
}
use na62_farm_lib_networking.Ethernet.Checksum.{Checksums}
use na62_farm_lib_networking.Mrp.{TriggerRawHdr}
use na62_farm_lib_networking.L1Distribution.Sending.Batch.{async_send_mrp-Queues}
use na62_farm_lib_networking.L1Distribution.Thread.{
  Mark, filling, skipping, popping, sending, kept, ThreadState, fill_step, skip_step, pop_step,
  send_step, mark_step, thread_step,
}
use na62_farm_lib_networking.L1Distribution.Thread.Invariant.{
  IsConsistent, popped, kept_only, popped-append, kept_only-append,
}
use na62_farm_lib_networking.L1Distribution.Thread.Kept.{after_batch, send_step_lem}
use na62_farm_lib_networking.L1Distribution.Thread.System.{
  System, requests, loops, sends, announces, Step, Reach, here, next, Reach-IsConsistent,
}

-- `flushBurst()` is false whenever the thread asks.
unfoldable pub StepsInBurst : (c : Checksums) {y z : System} → Step c y z → Type 0
StepsInBurst c (requests flush_burst event z_suppressed) = Unit {0}
StepsInBurst c (loops flush_burst s e) = flush_burst ≡ false
StepsInBurst c (sends sent net bytes e) = Unit {0}
StepsInBurst c (announces fresh) = Unit {0}

unfoldable pub IsInBurst : (c : Checksums) {y z : System} → Reach c y z → Type 0
unfolding StepsInBurst
IsInBurst c here = Unit {0}
IsInBurst c (next r s) = IsInBurst c r × StepsInBurst c s

unfoldable pub KeepsAll : ThreadState → Type 0
KeepsAll s = popped s.trace.history ≡ kept_only s.trace.history

fill_step-KeepsAll :
    (s : ThreadState) (q : List TriggerRawHdr) → KeepsAll s → KeepsAll (fill_step s q)
unfolding fill_step KeepsAll
fill_step-KeepsAll s [] k = k
fill_step-KeepsAll s (hdr ∷ q) k = ground (arith, k)

pop_step-KeepsAll :
    (s : ThreadState) (q : List TriggerRawHdr) → KeepsAll s → KeepsAll (pop_step s q)
unfolding pop_step KeepsAll
pop_step-KeepsAll s [] k = k
pop_step-KeepsAll s (hdr ∷ q) k =
    popped-append s.trace.history (kept hdr ∷ [])
    ∙ (ap (λ l. l ++ hdr ∷ []) k ∙ sym (kept_only-append s.trace.history (kept hdr ∷ [])))

KeepsAll-result : (a b : ThreadState) → some a ≡ some b → KeepsAll a → KeepsAll b
KeepsAll-result a b e k = let same : a ≡ b = cc in subst KeepsAll same k

send_step-KeepsAll :
    (c : Checksums) (pushed : List TriggerRawHdr) (s s' : ThreadState) (ts : List TriggerRawHdr)
    → s.multicast_requests ≡ ts
    → send_step c s ts ≡ some s'
    → IsConsistent pushed s
    → KeepsAll s
    → KeepsAll s'
unfolding send_step KeepsAll
send_step-KeepsAll c pushed s s' [] m e v k = KeepsAll-result _ s' e k
send_step-KeepsAll c pushed s s' (t ∷ ts) m e v k =
    let max = s.l1.max_triggers_per_l1mrp in
    let r =
      async_send_mrp-Queues c s.l1 s.net (t ∷ ts) v.unicast_macs v.multicast_macs v.net_valid
        (let small = v.buffer_fits in omega (arith, length-take max (t ∷ ts))) in
    KeepsAll-result (after_batch pushed s (t ∷ ts) (drop max (t ∷ ts)) _ r.0) s'
      (sym (send_step_lem pushed s c t ts (drop max (t ∷ ts)) _ r.0 r.1) ∙ e) k

thread_step-KeepsAll :
    (c : Checksums) (pushed : List TriggerRawHdr) (s s' : ThreadState)
    → thread_step c false s ≡ some s'
    → IsConsistent pushed s
    → KeepsAll s
    → KeepsAll s'
unfolding thread_step skip_step KeepsAll
thread_step-KeepsAll c pushed s s' e v k = go s.mark e
  where
    go : (m : Mark) → mark_step c false s m ≡ some s' → KeepsAll s'
    go filling f = KeepsAll-result _ s' f (fill_step-KeepsAll s s.l1.multicast_mrp_queue k)
    go skipping f = KeepsAll-result _ s' f k
    go popping f = KeepsAll-result _ s' f (pop_step-KeepsAll s s.l1.multicast_mrp_queue k)
    go sending f = send_step-KeepsAll c pushed s s' s.multicast_requests refl f v k

Step-KeepsAll :
    (c : Checksums) {y z : System} (s : Step c y z)
    → IsConsistent y.pushed y.state
    → StepsInBurst c s
    → KeepsAll y.state
    → KeepsAll z.state
unfolding StepsInBurst KeepsAll
Step-KeepsAll c (requests flush_burst event z_suppressed) v b k = k
Step-KeepsAll c {y} (loops flush_burst s e) v b k =
    thread_step-KeepsAll c y.pushed y.state s (ap (λ f. thread_step c f y.state) (sym b) ∙ e) v k
Step-KeepsAll c (sends sent net bytes e) v b k = k
Step-KeepsAll c (announces fresh) v b k = k

pub Reach-KeepsAll :
    (c : Checksums) {y z : System} (r : Reach c y z)
    → IsConsistent y.pushed y.state
    → IsInBurst c r
    → KeepsAll y.state
    → KeepsAll z.state
unfolding IsInBurst
Reach-KeepsAll c here v b k = k
Reach-KeepsAll c (next r s) v b k =
    Step-KeepsAll c s (Reach-IsConsistent c r v) b.1 (Reach-KeepsAll c r v b.0 k)
