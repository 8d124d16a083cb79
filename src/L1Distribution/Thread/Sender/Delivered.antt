-- ===== src/L1Distribution/Thread/Sender/Delivered.antt =====
-- All that was requested comes to be delivered, beside a sender whose call is two steps
-- (l1/L1DistributionHandler.cpp, socket/PCapHandler.cpp).
use mathlib.Core.Path.{subst}
use na62_farm_lib_networking.Base.{
  ℕ, ◌≤◌, ◌<◌, ◌≡◌, ◌∙◌, refl, sym, List, [], ◌∷◌, ◌++◌, map, Option, some, true, Bool, ◌>>=◌, inl,
  inr, Option-cases,
}
use na62_farm_lib_networking.Ethernet.Checksum.{Checksums}
use na62_farm_lib_networking.Memory.{DataContainer}
use na62_farm_lib_networking.Mrp.{TriggerRawHdr}
use na62_farm_lib_networking.Mrp.Receiver.{read_frame}
use na62_farm_lib_networking.NetworkHandler.{Net}
use na62_farm_lib_networking.NetworkHandler.Outbox.{all_frames, outbox}
use na62_farm_lib_networking.NetworkHandler.PCap.{do_send_queued_frames}
use na62_farm_lib_networking.NetworkHandler.PCap.Sending.{
  do_send_queued_frames-some, do_send_queued_frames-empty, do_send_queued_frames-taken,
}
use na62_farm_lib_networking.L1Distribution.{L1DistributionHandler}
use na62_farm_lib_networking.L1Distribution.Thread.Invariant.{IsConsistent}
use na62_farm_lib_networking.L1Distribution.Thread.Started.{first_state}
use na62_farm_lib_networking.L1Distribution.Thread.Interleaving.{Interleaves}
use na62_farm_lib_networking.L1Distribution.Thread.Batches.{headers, all_frames_of, in_order}
use na62_farm_lib_networking.L1Distribution.Thread.Received.{all_events}
use na62_farm_lib_networking.L1Distribution.Thread.Delivered.{Reach-delivers}
use na62_farm_lib_networking.L1Distribution.Thread.System.{
  System, with_net, requests, loops, sends, announces, Reach, here, next, Reach-IsConsistent,
}
use na62_farm_lib_networking.L1Distribution.Thread.Sender.{
  Sending, outside, beside, pops, gives, Runs, idle, more, RunsInBurst, AllSent, announced_by,
  put_by,
}
use na62_farm_lib_networking.L1Distribution.Thread.Sender.Whole.{
  before, whole, Matches, Runs-Matches, Matches-gives,
}

module _ (c : Checksums) where
  Runs-trans : {x y z : Sending} → Runs c x y → Runs c y z → Runs c x z
  Runs-trans r idle = r
  Runs-trans r (more r' s) = more (Runs-trans r r') s

  -- A whole call is a `try_pop`, and what follows if it gave a frame.
  call_Runs :
      (y z : System) (sent : Bool) (net : Net) (bytes : ℕ)
      → do_send_queued_frames sent z.state.net ≡ some (net, bytes)
      → Runs c (outside y) (outside z)
      → Runs c (outside y) (outside (with_net z net))
  call_Runs y z sent net bytes e r = go z.state.net.async_send_data refl
    where
      go :
          (q : List DataContainer)
          → z.state.net.async_send_data ≡ q
          → Runs c (outside y) (outside (with_net z net))
      go [] f =
          let same : z.state.net ≡ net = cc (do_send_queued_frames-empty sent z.state.net f, e) in
          subst (λ n. Runs c (outside y) (outside (with_net z n))) same r
      go (d ∷ q) f = more (more r (pops d q refl f)) (
          gives sent d net bytes refl
            (do_send_queued_frames-taken sent d q z.state.net net bytes f e))

  -- Whole calls are calls in two steps.
  Reach-Runs : {y z : System} → Reach c y z → Runs c (outside y) (outside z)
  Reach-Runs here = idle
  Reach-Runs (next r (requests flush_burst event z_suppressed)) =
      more (Reach-Runs r) (beside (requests flush_burst event z_suppressed) tt)
  Reach-Runs (next r (loops flush_burst s e)) =
      more (Reach-Runs r) (beside (loops flush_burst s e) tt)
  Reach-Runs {y} (next {z} r (sends sent net bytes e)) =
      call_Runs y z sent net bytes e (Reach-Runs r)
  Reach-Runs (next r (announces fresh)) = more (Reach-Runs r) (beside (announces fresh) tt)

  record Finishes (y z : Sending) (B G : Type 0) (told frames : List (Option (List ℕ)))
      : Type 0 where
    finished : System
    onward : Runs c z (outside finished)
    whole_calls : Matches c (whole y) finished B G told frames
    same_pushed : finished.pushed ≡ z.system.pushed

  -- A sender in a call comes out of it.
  finishes :
      (y z : Sending) (B G : Type 0) (told frames : List (Option (List ℕ)))
      → IsConsistent (whole z).pushed (whole z).state
      → Matches c (whole y) (whole z) B G told frames
      → Finishes y z B G told frames
  finishes y z B G told frames v m = elim (Option-cases z.held) [
    | inl e ↦ record {
      finished = z.system;
      onward = subst (λ h. Runs c z (record { system = z.system; held = h })) e idle;
      whole_calls = subst (λ h. Matches c (whole y) (before h z.system) B G told frames) e m;
      same_pushed = refl;
    }
    | inr (d, e) ↦
        let w =
          subst (λ h. IsConsistent (before h z.system).pushed (before h z.system).state) e v in
        let r = do_send_queued_frames-some true (before (some d) z.system).state.net w.net_valid in
        let g =
          do_send_queued_frames-taken true d z.system.state.net.async_send_data
            (before (some d) z.system).state.net r.0 r.1 refl r.2 in
        let m' = subst (λ h. Matches c (whole y) (before h z.system) B G told frames) e m in
        let n = Matches-gives c true d r.0 r.1 g m' in
        record {
          finished = with_net z.system r.0;
          onward = more idle (gives true d r.0 r.1 e g);
          whole_calls = record {
            run = n.run;
            burst = n.burst;
            given = λ p. n.given (p, refl);
            announced = n.announced;
            put = n.put;
          };
          same_pushed = refl;
        }
  ]

-- Take any run within a burst from the thread's first state, which is consistent, with a limit of one to
-- 5457 triggers per MRP, beside one sender whose calls of DoSendQueuedFrames follow one another, each of them
-- two steps with those of the other threads between, and in which `sendto` always works. Steps that can follow it
-- lead to a state in which the request queue, the vector and the send queue are empty and the sender is in
-- no call. There are batches that are all that the run requested, in order; the device was given what
-- it was given before and what waited then, followed by a mix of one frame for each header and batch with
-- the announcements of the run, each in order; and a receiver reads from those frames, frame by frame,
-- exactly the triggers of the batch.
pub Runs-delivers :
    (c : Checksums) (l1 : L1DistributionHandler) (net : Net) {z : Sending}
    (r : Runs c (outside (record { state = first_state l1 net; pushed = [] })) z)
    → IsConsistent [] (first_state l1 net)
    → RunsInBurst c r
    → AllSent c r
    → 0 < l1.max_triggers_per_l1mrp
    → l1.max_triggers_per_l1mrp ≤ 5457
    → (w : System) × Runs c z (outside w)
      × (w.state.l1.multicast_mrp_queue ≡ [])
      × (w.state.multicast_requests ≡ [])
      × (w.state.net.async_send_data ≡ [])
      × (bs : List (List TriggerRawHdr)) × (new : List (Option (List ℕ))) × (z.system.pushed
          ≡ in_order bs)
      × (map some w.state.net.wire ≡ all_frames (outbox net) ++ new)
      × Interleaves (all_frames_of c (headers l1) bs) (announced_by c r) new
      × (map (λ f. f >>= read_frame) (all_frames_of c (headers l1) bs) ≡ all_events (headers l1) bs)
Runs-delivers c l1 net {z} r v b g pos limit =
    let m = Runs-Matches c r in
    let f =
      finishes c (outside (record { state = first_state l1 net; pushed = [] })) z (RunsInBurst c r)
        (AllSent c r) (announced_by c r) (put_by c r) (Reach-IsConsistent c m.run v) m in
    let n = f.whole_calls in
    let (w, onward, no_queue, no_vector, none_wait, bs, new, pushed, frames, mixed, events) =
      Reach-delivers c l1 net n.run v (n.burst b) (n.given g) pos limit in
    (
      w,
      Runs-trans c f.onward (Reach-Runs c onward),
      no_queue,
      no_vector,
      none_wait,
      bs,
      new,
      sym f.same_pushed ∙ pushed,
      frames,
      subst (λ told. Interleaves (all_frames_of c (headers l1) bs) told new) n.announced mixed,
      events,
    )
