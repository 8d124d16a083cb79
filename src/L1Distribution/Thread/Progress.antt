-- ===== src/L1Distribution/Thread/Progress.antt =====
-- The thread's loops get on (l1/L1DistributionHandler.cpp): what is queued is sent.
use mathlib.Core.Path.{subst, ap₂}
use mathlib.Core.List.{append-nil, append_assoc, reverse-cons}
use na62_farm_lib_networking.Base.{
  ℕ, zero, suc, ◌+◌, ◌*◌, ◌≤◌, ◌<◌, ◌≡◌, ◌∙◌, refl, ap, sym, List, [], ◌∷◌, ◌++◌, reverse, Option,
  some, none, false, arith, ◌==◌, Bool-cases, inl, inr, if◌then◌else◌, length,
}
use na62_farm_lib_networking.Ethernet.Checksum.{Checksums}
use na62_farm_lib_networking.Mrp.{TriggerRawHdr}
use na62_farm_lib_networking.L1Distribution.Thread.{
  filling, skipping, popping, sending, ThreadState, fill_step, send_step, mark_step, thread_step,
}
use na62_farm_lib_networking.L1Distribution.Thread.Invariant.{IsConsistent}
use na62_farm_lib_networking.L1Distribution.Thread.Steps.{
  Batch, send_step-Batch, next_IsConsistent, popped_one, step_skipping, step_sending, step_waiting,
  step_popping,
}

-- `n` steps of the thread, during the burst and with nothing from the other threads.
unfoldable pub run_thread : ℕ → Checksums → ThreadState → Option ThreadState
run_thread zero c s = some s
run_thread (suc n) c s = elim (thread_step c false s) [ none ↦ none | some s' ↦ run_thread n c s' ]

-- The queue and the vector are empty, and what they held was taken into MRPs, oldest first.
pub record Drains (s s' : ThreadState) : Type 0 where
  pub queue_empty : s'.l1.multicast_mrp_queue ≡ []
  pub vector_empty : s'.multicast_requests ≡ []
  pub all_sent :
      s'.trace.sent ≡ s.trace.sent ++ (reverse s.multicast_requests ++ s.l1.multicast_mrp_queue)

-- Steps in a row.
pub run_thread-suc :
    (n : ℕ) (c : Checksums) (s s' : ThreadState) (out : Option ThreadState)
    → thread_step c false s ≡ some s'
    → run_thread n c s' ≡ out
    → run_thread (suc n) c s ≡ out
unfolding run_thread
run_thread-suc n c s s' out e f = rw (e, run_thread) f

-- What was sent, with what waits in the vector and then in the queue.
abbrev all_of : ThreadState → List TriggerRawHdr
all_of s = s.trace.sent ++ (reverse s.multicast_requests ++ s.l1.multicast_mrp_queue)

abbrev Goal : Checksums → List TriggerRawHdr → ThreadState → Type 0
Goal c pushed s =
    (n : ℕ) × (s' : ThreadState) × (run_thread n c s ≡ some s')
    × IsConsistent pushed s'
    × Drains s s'

-- A step that keeps `all_of` brings the goal back.
back_one :
    (c : Checksums) (pushed : List TriggerRawHdr) (s s' : ThreadState)
    → thread_step c false s ≡ some s'
    → all_of s' ≡ all_of s
    → Goal c pushed s'
    → Goal c pushed s
back_one c pushed s s' e same (n, out, r, v, d) = (
  suc n,
  out,
  run_thread-suc n c s s' (some out) e r,
  v,
  record {
    queue_empty = d.queue_empty;
    vector_empty = d.vector_empty;
    all_sent = d.all_sent ∙ same;
  },
)

module _ (c : Checksums) (pushed : List TriggerRawHdr) where
  -- The test and the batch.
  through_sending :
      (s : ThreadState) (t : TriggerRawHdr) (ts : List TriggerRawHdr)
      → s.mark ≡ filling
      → IsConsistent pushed s
      → fill_step s s.l1.multicast_mrp_queue ≡ record s { mark = sending }
      → s.multicast_requests ≡ t ∷ ts
      → (s' : ThreadState) × IsConsistent pushed s'
        × Batch (record s { mark = sending }) s'
        × (Goal c pushed s' → Goal c pushed s)
  unfolding thread_step mark_step
  through_sending s t ts m v f e =
      let s1 : ThreadState = record s { mark = sending } in
      let first = step_sending c s m f in
      let v1 = next_IsConsistent c pushed s s1 first v in
      let b = send_step-Batch c pushed s1 t ts e v1 in
      let second : thread_step c false s1 ≡ some b.0 = ap (send_step c s1) e ∙ b.1 in
      (
        b.0,
        next_IsConsistent c pushed s1 b.0 second v1,
        b.2,
        λ g. back_one c pushed s s1 first refl (
            back_one c pushed s1 b.0 second
              (ap₂ (λ l q. l ++ q) b.2.batch_sent
                  (ap₂ (λ l q. reverse l ++ q) b.2.emptied b.2.same_queue)
                ∙ append_assoc s.trace.sent (reverse s.multicast_requests) s.l1.multicast_mrp_queue)
              g),
      )

  -- The test, the loop that skips, and the pop.
  through_pop :
      (s : ThreadState) (t : TriggerRawHdr) (q : List TriggerRawHdr)
      → s.mark ≡ filling
      → IsConsistent pushed s
      → s.l1.multicast_mrp_queue ≡ t ∷ q
      → (length s.multicast_requests == s.l1.max_triggers_per_l1mrp) ≡ false
      → IsConsistent pushed (popped_one s t q)
        × (Goal c pushed (popped_one s t q) → Goal c pushed s)
  through_pop s t q m v e more =
      let s1 : ThreadState = record s { mark = skipping } in
      let s2 : ThreadState = record s { mark = popping } in
      let s3 = popped_one s t q in
      let first = step_skipping c s t q m e more in
      let second = step_waiting c s in
      let third = step_popping c s t q e in
      let v1 = next_IsConsistent c pushed s s1 first v in
      let v2 = next_IsConsistent c pushed s1 s2 second v1 in
      (
        next_IsConsistent c pushed s2 s3 third v2,
        λ g. back_one c pushed s s1 first refl (
            back_one c pushed s1 s2 second refl (
              back_one c pushed s2 s3 third
                (ap (◌++◌ s.trace.sent) (
                  ap (λ l. l ++ q) (reverse-cons t s.multicast_requests)
                  ∙ (append_assoc (reverse s.multicast_requests) (t ∷ []) q
                      ∙ ap (◌++◌ (reverse s.multicast_requests)) (sym e))))
                g)),
      )

  drain :
      (n : ℕ) (s : ThreadState) (q w : List TriggerRawHdr)
      → s.l1.multicast_mrp_queue ≡ q
      → s.multicast_requests ≡ w
      → 4 * length q + length w ≤ n
      → s.mark ≡ filling
      → 0 < s.l1.max_triggers_per_l1mrp
      → IsConsistent pushed s
      → Goal c pushed s
  unfolding fill_step run_thread
  drain n s [] [] eq ew small m pos v = (
    0,
    s,
    refl,
    v,
    record {
      queue_empty = eq;
      vector_empty = ew;
      all_sent =
          sym (append-nil s.trace.sent)
          ∙ ap₂ (λ l k. s.trace.sent ++ (reverse l ++ k)) (sym ew) (sym eq);
    },
  )
  drain zero s [] (t ∷ ts) eq ew small m pos v = absurd (omega arith)
  drain zero s (u ∷ us) w eq ew small m pos v = absurd (omega arith)
  drain (suc n) s [] (t ∷ ts) eq ew small m pos v =
      let b = through_sending s t ts m v (ap (fill_step s) eq) ew in
      b.3 (
        drain n b.0 [] [] (b.2.same_queue ∙ eq) b.2.emptied (omega arith) b.2.to_filling
          (subst (λ k. 0 < k) (sym b.2.same_max) pos) b.1)
  drain (suc n) s (u ∷ us) [] eq ew small m pos v =
      let none_held : length s.multicast_requests ≡ 0 = ap length ew in
      let more : (length s.multicast_requests == s.l1.max_triggers_per_l1mrp) ≡ false =
        ground arith in
      let p = through_pop s u us m v eq more in
      p.1 (drain n (popped_one s u us) us (u ∷ []) refl (ap (◌∷◌ u) ew) (omega arith) refl pos p.0)
  drain (suc n) s (u ∷ us) (t ∷ ts) eq ew small m pos v =
      elim (Bool-cases (length s.multicast_requests == s.l1.max_triggers_per_l1mrp)) [
        | inl full ↦
            let b =
              through_sending s t ts m v
                (ap (fill_step s) eq
                  ∙ ap
                      (λ b. if b then record s { mark = sending } else record s { mark = skipping })
                      full)
                ew in
            b.3 (
              drain n b.0 (u ∷ us) [] (b.2.same_queue ∙ eq) b.2.emptied (omega arith) b.2.to_filling
                (subst (λ k. 0 < k) (sym b.2.same_max) pos) b.1)
        | inr more ↦
            let p = through_pop s u us m v eq more in
            p.1 (
              drain n (popped_one s u us) us (u ∷ t ∷ ts) refl (ap (◌∷◌ u) ew) (omega arith) refl
                pos p.0)
      ]

-- During the burst, with at least one trigger allowed per MRP, the thread that starts its filling loop in
-- a consistent state comes, in some number of steps that nothing interrupts, to a consistent state
-- with an empty queue and an empty vector; by then all that the two held was taken into MRPs, the
-- vector's triggers first and then the queue's, in the order in which they were requested, from one
-- MRP to the next (the bytes of one MRP list its newest trigger first).
pub run_thread-Drains :
    (c : Checksums) (pushed : List TriggerRawHdr) (s : ThreadState)
    → s.mark ≡ filling
    → 0 < s.l1.max_triggers_per_l1mrp
    → IsConsistent pushed s
    → (n : ℕ) × (s' : ThreadState) × (run_thread n c s ≡ some s')
      × IsConsistent pushed s'
      × Drains s s'
run_thread-Drains c pushed s m pos v =
    drain c pushed (4 * length s.l1.multicast_mrp_queue + length s.multicast_requests) s _ _ refl
      refl (omega arith) m pos v
