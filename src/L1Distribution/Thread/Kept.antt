-- ===== src/L1Distribution/Thread/Kept.antt =====
-- Each step of the thread keeps what holds (l1/L1DistributionHandler.cpp).
use mathlib.Core.Path.{subst}
use mathlib.Core.List.{append-nil, append_assoc, reverse-cons}
use na62_farm_lib_networking.Base.{
  Option, ◌+◌, ◌-◌, ◌≤◌, ◌<◌, ◌≡◌, ◌∙◌, refl, ap, sym, List, [], ◌∷◌, ◌++◌, reverse, some, Bool,
  true, false, arith, ◌==◌, Bool-cases, inl, inr, ◌⊎◌, length, length-append, length-reverse, take,
  drop, take_all, drop_all, u64,
}
use na62_farm_lib_networking.Ethernet.Checksum.{Checksums}
use na62_farm_lib_networking.Mrp.{TriggerRawHdr}
use na62_farm_lib_networking.NetworkHandler.{Net}
use na62_farm_lib_networking.L1Distribution.{L1DistributionHandler}
use na62_farm_lib_networking.L1Distribution.Sending.{async_send_mrp}
use na62_farm_lib_networking.L1Distribution.Sending.Batch.{async_send_mrp-Queues}
use na62_farm_lib_networking.L1Distribution.Thread.{
  Mark, filling, skipping, popping, sending, Popped, skipped, kept, ThreadState, fill_step,
  skip_step, pop_step, send_step, mark_step, thread_step, taken,
}
use na62_farm_lib_networking.L1Distribution.Thread.Invariant.{
  popped, fills, IsConsistent, popped-append, kept_only-append,
}

module _ (pushed : List TriggerRawHdr) (s : ThreadState) where
  with_mark :
      (m : Mark)
      → (fills m ≡ false) ⊎ (length s.multicast_requests < s.l1.max_triggers_per_l1mrp)
      → IsConsistent pushed s
      → IsConsistent pushed (record s { mark = m })
  with_mark m room v = record {
    net_valid = v.net_valid;
    unicast_macs = v.unicast_macs;
    multicast_macs = v.multicast_macs;
    buffer_fits = v.buffer_fits;
    bounded = v.bounded;
    room = room;
    none_lost = v.none_lost;
    sent_once = v.sent_once;
    counted = v.counted;
  }

  has_room :
      fills s.mark ≡ true
      → IsConsistent pushed s
      → length s.multicast_requests < s.l1.max_triggers_per_l1mrp
  has_room e v = elim v.room [ inl not_filling ↦ absurd (ground arith) | inr more ↦ more ]

  fill_step-IsConsistent :
      (queue : List TriggerRawHdr) → IsConsistent pushed s → IsConsistent pushed (fill_step s queue)
  unfolding fill_step
  fill_step-IsConsistent [] v = with_mark sending (inl refl) v
  fill_step-IsConsistent (hdr ∷ queue) v =
      elim (Bool-cases (length s.multicast_requests == s.l1.max_triggers_per_l1mrp)) [
        | inl full ↦ rw full (with_mark sending (inl refl) v)
        | inr more ↦ rw more (with_mark skipping (inr (let le = v.bounded in ground arith)) v)
      ]

  popped-snoc :
      (t : TriggerRawHdr) (queue : List TriggerRawHdr) (p : Popped)
      → popped (p ∷ []) ≡ t ∷ []
      → s.l1.multicast_mrp_queue ≡ t ∷ queue
      → IsConsistent pushed s
      → popped (s.trace.history ++ p ∷ []) ++ queue ≡ pushed
  popped-snoc t queue p one e v =
      ap (λ l. l ++ queue)
        (popped-append s.trace.history (p ∷ []) ∙ ap (◌++◌ (popped s.trace.history)) one)
      ∙ (append_assoc (popped s.trace.history) (t ∷ []) queue
          ∙ (ap (◌++◌ (popped s.trace.history)) (sym e) ∙ v.none_lost))

  skip_step-IsConsistent :
      (flush_burst : Bool) (queue : List TriggerRawHdr)
      → s.l1.multicast_mrp_queue ≡ queue
      → s.mark ≡ skipping
      → IsConsistent pushed s
      → IsConsistent pushed (skip_step flush_burst s queue)
  unfolding skip_step
  skip_step-IsConsistent false queue e m v = with_mark popping (inr (has_room (ap fills m) v)) v
  skip_step-IsConsistent true [] e m v = with_mark popping (inr (has_room (ap fills m) v)) v
  skip_step-IsConsistent true (hdr ∷ queue) e m v = record {
    net_valid = v.net_valid;
    unicast_macs = v.unicast_macs;
    multicast_macs = v.multicast_macs;
    buffer_fits = v.buffer_fits;
    bounded = v.bounded;
    room = v.room;
    none_lost = popped-snoc hdr queue (skipped hdr) refl e v;
    sent_once = kept_only-append s.trace.history (skipped hdr ∷ []) ∙ (append-nil _ ∙ v.sent_once);
    counted = v.counted;
  }

  pop_step-IsConsistent :
      (queue : List TriggerRawHdr)
      → s.l1.multicast_mrp_queue ≡ queue
      → s.mark ≡ popping
      → IsConsistent pushed s
      → IsConsistent pushed (pop_step s queue)
  unfolding pop_step
  pop_step-IsConsistent [] e m v = v
  pop_step-IsConsistent (hdr ∷ queue) e m v = record {
    net_valid = v.net_valid;
    unicast_macs = v.unicast_macs;
    multicast_macs = v.multicast_macs;
    buffer_fits = v.buffer_fits;
    bounded = has_room (ap fills m) v;
    room = inl refl;
    none_lost = popped-snoc hdr queue (kept hdr) refl e v;
    sent_once =
        kept_only-append s.trace.history (kept hdr ∷ [])
        ∙ (ap (λ l. l ++ hdr ∷ []) v.sent_once
            ∙ (append_assoc s.trace.sent (reverse s.multicast_requests) (hdr ∷ [])
                ∙ ap (◌++◌ s.trace.sent) (sym (reverse-cons hdr s.multicast_requests))));
    counted = v.counted;
  }

  abbrev pub after_batch :
      List TriggerRawHdr → List TriggerRawHdr → L1DistributionHandler → Net → ThreadState
  after_batch ts rest l1 net = record {
    l1 = l1;
    net = net;
    multicast_requests = rest;
    mark = filling;
    trace = record s.trace { sent = s.trace.sent ++ reverse (taken ts rest) };
  }

  pub send_step_lem :
      (c : Checksums) (t : TriggerRawHdr) (ts rest : List TriggerRawHdr)
      (l1 : L1DistributionHandler) (net : Net)
      → async_send_mrp c (t ∷ ts) s.l1 s.net ≡ some (rest, l1, net)
      → send_step c s (t ∷ ts) ≡ some (after_batch (t ∷ ts) rest l1 net)
  unfolding send_step
  send_step_lem c t ts rest l1 net e = rw (e, send_step) refl

  send_step-IsConsistent :
      (c : Checksums) (requests : List TriggerRawHdr)
      → s.multicast_requests ≡ requests
      → IsConsistent pushed s
      → (s' : ThreadState) × (send_step c s requests ≡ some s') × IsConsistent pushed s'
  unfolding send_step
  send_step-IsConsistent c [] e v =
      (record s { mark = filling }, refl, with_mark filling (inl refl) v)
  send_step-IsConsistent c (t ∷ ts) e v =
      let max = s.l1.max_triggers_per_l1mrp in
      let fits : length (t ∷ ts) ≤ max = subst (λ l. length l ≤ max) e v.bounded in
      let all = take_all max (t ∷ ts) fits in
      let none_left = drop_all max (t ∷ ts) fits in
      let whole : taken (t ∷ ts) (drop max (t ∷ ts)) ≡ t ∷ ts =
        rw none_left (take_all (length (t ∷ ts) - 0) (t ∷ ts) (omega arith)) in
      let size : length (take max (t ∷ ts)) ≡ length (t ∷ ts) = ap length all in
      let r =
        async_send_mrp-Queues c s.l1 s.net (t ∷ ts) v.unicast_macs v.multicast_macs v.net_valid
          (let fits' = v.buffer_fits in omega arith) in
      (
        after_batch (t ∷ ts) (drop max (t ∷ ts)) _ r.0,
        send_step_lem c t ts (drop max (t ∷ ts)) _ r.0 r.1,
        record {
          net_valid = r.2.valid;
          unicast_macs = v.unicast_macs;
          multicast_macs = v.multicast_macs;
          buffer_fits = v.buffer_fits;
          bounded = rw none_left (omega arith);
          room = inl refl;
          none_lost = v.none_lost;
          sent_once =
              v.sent_once
              ∙ (ap (λ l. s.trace.sent ++ reverse l) e
                  ∙ (sym (append-nil _)
                      ∙ (ap (λ l. (s.trace.sent ++ reverse (t ∷ ts)) ++ reverse l) (sym none_left)
                          ∙ ap (λ l. (s.trace.sent ++ reverse l) ++ reverse (drop max (t ∷ ts)))
                              (sym whole))));
          counted =
              ap (λ k. u64 (k + length (take max (t ∷ ts)))) v.counted
              ∙ (omega (
                arith,
                size,
                length-append s.trace.sent (reverse (t ∷ ts)),
                length-reverse (t ∷ ts),
              )
                  ∙ ap (λ l. u64 (length (s.trace.sent ++ reverse l))) (sym whole));
        },
      )

pub outcome_IsConsistent :
    (pushed : List TriggerRawHdr) (r : Option ThreadState) (s : ThreadState)
    → r ≡ some s
    → (s' : ThreadState) × (r ≡ some s') × IsConsistent pushed s'
    → IsConsistent pushed s
outcome_IsConsistent pushed r s e (s', f, v) =
    let same : s' ≡ s = cc in subst (IsConsistent pushed) same v

-- In a consistent state the thread takes its next step, whatever `flushBurst()` says: it never reads
-- or writes out of range, and the state is consistent after it.
pub thread_step-IsConsistent :
    (c : Checksums) (flush_burst : Bool) (pushed : List TriggerRawHdr) (s : ThreadState)
    → IsConsistent pushed s
    → (s' : ThreadState) × (thread_step c flush_burst s ≡ some s') × IsConsistent pushed s'
unfolding thread_step
thread_step-IsConsistent c flush_burst pushed s v = go s.mark refl
  where
    go :
        (m : Mark)
        → s.mark ≡ m
        → (s' : ThreadState) × (mark_step c flush_burst s m ≡ some s') × IsConsistent pushed s'
    go filling e = (fill_step s s.l1.multicast_mrp_queue, refl, fill_step-IsConsistent pushed s _ v)
    go skipping e = (
      skip_step flush_burst s s.l1.multicast_mrp_queue,
      refl,
      skip_step-IsConsistent pushed s flush_burst _ refl e v,
    )
    go popping e =
        (pop_step s s.l1.multicast_mrp_queue, refl, pop_step-IsConsistent pushed s _ refl e v)
    go sending e = send_step-IsConsistent pushed s c _ refl v
