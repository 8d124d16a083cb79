-- ===== src/L1Distribution/Thread/Carried.antt =====
-- From the requests to what the receivers read, over whole runs (l1/L1DistributionHandler.cpp,
-- socket/PCapHandler.cpp).
use mathlib.Core.List.{append-nil, append_assoc}
use mathlib.Core.Path.{subst}
use na62_farm_lib_networking.Base.{
  ℕ, ◌≤◌, ◌≡◌, ◌∙◌, refl, sym, ap, List, [], ◌∷◌, ◌++◌, Option, some, Bool, true, false, arith,
  length, length-take,
}
use na62_farm_lib_networking.Ethernet.Checksum.{Checksums}
use na62_farm_lib_networking.Mrp.{TriggerRawHdr}
use na62_farm_lib_networking.NetworkHandler.Outbox.{Action, all_put, puts, takes}
use na62_farm_lib_networking.L1Distribution.{async_request_l1_data_multicast}
use na62_farm_lib_networking.L1Distribution.Thread.{
  Mark, filling, skipping, popping, sending, ThreadState, mark_step, thread_step,
}
use na62_farm_lib_networking.L1Distribution.Thread.Invariant.{IsConsistent}
use na62_farm_lib_networking.L1Distribution.Thread.Outbox.{action, actions}
use na62_farm_lib_networking.L1Distribution.Thread.Interleaving.{
  Interleaves, done, right, all_left, Interleaves-append,
}
use na62_farm_lib_networking.L1Distribution.Thread.Batches.{
  batch_of, step_batches, batches, step_announcements, announcements, headers, all_frames_of,
  in_order, in_order-append, all_frames_of-append, thread_frames-batch, Moves, fill_step-Moves,
  skip_step-Moves, pop_step-Moves, send_step-Moves,
}
use na62_farm_lib_networking.L1Distribution.Thread.System.{
  System, requests, loops, sends, announces, Step, Reach, here, next, Reach-IsConsistent,
}

abbrev pub AllSmall : ℕ → List (List TriggerRawHdr) → Type 0
AllSmall max [] = Unit {0}
AllSmall max (b ∷ bs) = (length b ≤ max) × AllSmall max bs

AllSmall-append :
    (max : ℕ) (bs cs : List (List TriggerRawHdr))
    → AllSmall max bs
    → AllSmall max cs
    → AllSmall max (bs ++ cs)
AllSmall-append max [] cs p q = q
AllSmall-append max (b ∷ bs) cs p q = (p.0, AllSmall-append max bs cs p.1 q)

batch_of-AllSmall :
    (max : ℕ) (m : Mark) (ts : List TriggerRawHdr) → AllSmall max (batch_of max m ts)
unfolding batch_of
batch_of-AllSmall max filling ts = tt
batch_of-AllSmall max skipping ts = tt
batch_of-AllSmall max popping ts = tt
batch_of-AllSmall max sending [] = tt
batch_of-AllSmall max sending (t ∷ ts) = (omega (arith, length-take max (t ∷ ts)), tt)

thread_step-Moves :
    (c : Checksums) (flush_burst : Bool) (pushed : List TriggerRawHdr) (s s' : ThreadState)
    → thread_step c flush_burst s ≡ some s'
    → IsConsistent pushed s
    → Moves s s' (batch_of s.l1.max_triggers_per_l1mrp s.mark s.multicast_requests)
unfolding thread_step batch_of
thread_step-Moves c flush_burst pushed s s' e v = go s.mark e
  where
    go :
        (m : Mark)
        → mark_step c flush_burst s m ≡ some s'
        → Moves s s' (batch_of s.l1.max_triggers_per_l1mrp m s.multicast_requests)
    go filling f = subst (λ x. Moves s x []) (cc (f)) (fill_step-Moves s s.l1.multicast_mrp_queue)
    go skipping f =
        subst (λ x. Moves s x []) (cc (f)) (skip_step-Moves flush_burst s s.l1.multicast_mrp_queue)
    go popping f = subst (λ x. Moves s x []) (cc (f)) (pop_step-Moves s s.l1.multicast_mrp_queue)
    go sending f = send_step-Moves c pushed s s' s.multicast_requests refl f v

-- What a run from `y` to `z` carries: batches `bs` and announcements `as`, mixed into `ps`.
pub record Carries (c : Checksums) (y z : System) (bs : List (List TriggerRawHdr))
    (as' ps : List (Option (List ℕ))) : Type 0 where
  pub same_headers : headers z.state.l1 ≡ headers y.state.l1
  pub same_max : z.state.l1.max_triggers_per_l1mrp ≡ y.state.l1.max_triggers_per_l1mrp
  pub recorded : z.state.trace.sent ≡ y.state.trace.sent ++ in_order bs
  pub mixed : Interleaves (all_frames_of c (headers y.state.l1) bs) as' ps
  pub small : AllSmall y.state.l1.max_triggers_per_l1mrp bs

Carries-trans :
    (c : Checksums) {x y z : System} {bs cs : List (List TriggerRawHdr)}
    {as' ps as'' qs : List (Option (List ℕ))}
    → Carries c x y bs as' ps
    → Carries c y z cs as'' qs
    → Carries c x z (bs ++ cs) (as' ++ as'') (ps ++ qs)
Carries-trans c {x} {bs = bs} {cs = cs} {as' = as'} {ps = ps} {as'' = as''} {qs = qs} p q = record {
  same_headers = q.same_headers ∙ p.same_headers;
  same_max = q.same_max ∙ p.same_max;
  recorded =
      q.recorded
      ∙ (ap (λ l. l ++ in_order cs) p.recorded
          ∙ (append_assoc x.state.trace.sent (in_order bs) (in_order cs)
              ∙ ap (◌++◌ x.state.trace.sent) (sym (in_order-append bs cs))));
  mixed =
      subst (λ l. Interleaves l (as' ++ as'') (ps ++ qs))
        (sym (all_frames_of-append c (headers x.state.l1) bs cs))
        (Interleaves-append p.mixed
          (subst (λ h. Interleaves (all_frames_of c h cs) as'' qs) p.same_headers q.mixed));
  small = AllSmall-append _ bs cs p.small (subst (λ m. AllSmall m cs) p.same_max q.small);
}

Step-Carries :
    (c : Checksums) {y z : System} (s : Step c y z)
    → IsConsistent y.pushed y.state
    → Carries c y z (step_batches c s) (step_announcements c s) (all_put (action c s ∷ []))
unfolding step_batches step_announcements action async_request_l1_data_multicast
Step-Carries c {y} (requests true event z_suppressed) v = record {
  same_headers = refl;
  same_max = refl;
  recorded = sym (append-nil y.state.trace.sent);
  mixed = done;
  small = tt;
}
Step-Carries c {y} (requests false event z_suppressed) v = record {
  same_headers = refl;
  same_max = refl;
  recorded = sym (append-nil y.state.trace.sent);
  mixed = done;
  small = tt;
}
Step-Carries c {y} (loops flush_burst s e) v =
    let l1 = y.state.l1 in
    let ts = y.state.multicast_requests in
    let m = thread_step-Moves c flush_burst y.pushed y.state s e v in
    record {
      same_headers = m.same_headers;
      same_max = m.same_max;
      recorded = m.recorded;
      mixed =
          subst
            (Interleaves
              (all_frames_of c (headers l1) (batch_of l1.max_triggers_per_l1mrp y.state.mark ts))
              [])
            (sym (append-nil _ ∙ thread_frames-batch c l1 y.state.mark ts)) (all_left _);
      small = batch_of-AllSmall l1.max_triggers_per_l1mrp y.state.mark ts;
    }
Step-Carries c {y} (sends sent net bytes e) v = record {
  same_headers = refl;
  same_max = refl;
  recorded = sym (append-nil y.state.trace.sent);
  mixed = done;
  small = tt;
}
Step-Carries c {y} (announces fresh) v = record {
  same_headers = refl;
  same_max = refl;
  recorded = sym (append-nil y.state.trace.sent);
  mixed = right done;
  small = tt;
}

pub all_put-append : (xs ys : List Action) → all_put (xs ++ ys) ≡ all_put xs ++ all_put ys
all_put-append [] ys = refl
all_put-append (puts frames ∷ xs) ys =
    ap (◌++◌ frames) (all_put-append xs ys) ∙ sym (append_assoc frames (all_put xs) (all_put ys))
all_put-append (takes sent ∷ xs) ys = all_put-append xs ys

pub Reach-Carries :
    (c : Checksums) {y z : System} (r : Reach c y z)
    → IsConsistent y.pushed y.state
    → Carries c y z (batches c r) (announcements c r) (all_put (actions c r))
unfolding batches announcements actions
Reach-Carries c {y} here v = record {
  same_headers = refl;
  same_max = refl;
  recorded = sym (append-nil y.state.trace.sent);
  mixed = done;
  small = tt;
}
Reach-Carries c {y} (next {z} {w} r s) v =
    subst
      (Carries c y w (batches c r ++ step_batches c s)
        (announcements c r ++ step_announcements c s))
      (sym (all_put-append (actions c r) (action c s ∷ [])))
      (Carries-trans c (Reach-Carries c r v) (Step-Carries c s (Reach-IsConsistent c r v)))
