-- ===== src/L1Distribution/Thread/Batches.antt =====
-- The batches of triggers that a run hands over in MRPs, from the thread to the device
-- (l1/L1DistributionHandler.cpp, socket/PCapHandler.cpp).
use mathlib.Core.List.{append-nil, append_assoc}
use mathlib.Core.Path.{subst}
use na62_farm_lib_networking.Base.{
  ℕ, ◌-◌, ◌≤◌, ◌≡◌, ◌∙◌, refl, sym, ap, List, [], ◌∷◌, ◌++◌, map, reverse, Option, some, Bool, true,
  false, arith, length, length-take, take, drop, take_all, drop_all,
}
use na62_farm_lib_networking.Ethernet.Checksum.{Checksums}
use na62_farm_lib_networking.Ethernet.Frames.Wire.{announced}
use na62_farm_lib_networking.Network.{arp_hdr_bytes}
use na62_farm_lib_networking.Mrp.{TriggerRawHdr, MrpFrameHdr, payload}
use na62_farm_lib_networking.L1Distribution.{L1DistributionHandler}
use na62_farm_lib_networking.L1Distribution.Sending.{make_frame}
use na62_farm_lib_networking.L1Distribution.Sending.Batch.{async_send_mrp-Queues}
use na62_farm_lib_networking.L1Distribution.Thread.{
  Mark, filling, skipping, popping, sending, ThreadState, fill_step, skip_step, pop_step, send_step,
  taken,
}
use na62_farm_lib_networking.L1Distribution.Thread.Invariant.{IsConsistent}
use na62_farm_lib_networking.L1Distribution.Thread.Kept.{send_step_lem}
use na62_farm_lib_networking.L1Distribution.Thread.Outbox.{mrp_frames, thread_frames}
use na62_farm_lib_networking.L1Distribution.Thread.System.{
  System, requests, loops, sends, announces, Step, Reach, here, next,
}

-- The triggers of one MRP, in the order in which it lists them: the newest first.
unfoldable pub batch_of : ℕ → Mark → List TriggerRawHdr → List (List TriggerRawHdr)
batch_of max filling triggers = []
batch_of max skipping triggers = []
batch_of max popping triggers = []
batch_of max sending [] = []
batch_of max sending (t ∷ ts) = take max (t ∷ ts) ∷ []

unfoldable pub step_batches :
    (c : Checksums) {y z : System} → Step c y z → List (List TriggerRawHdr)
unfolding batch_of
step_batches c (requests flush_burst event z_suppressed) = []
step_batches c {y} (loops flush_burst s e) =
    batch_of y.state.l1.max_triggers_per_l1mrp y.state.mark y.state.multicast_requests
step_batches c (sends sent net bytes e) = []
step_batches c (announces fresh) = []

unfoldable pub batches : (c : Checksums) {y z : System} → Reach c y z → List (List TriggerRawHdr)
unfolding step_batches
batches c here = []
batches c (next r s) = batches c r ++ step_batches c s

-- The announcements that a run queues.
unfoldable pub step_announcements :
    (c : Checksums) {y z : System} → Step c y z → List (Option (List ℕ))
step_announcements c (requests flush_burst event z_suppressed) = []
step_announcements c (loops flush_burst s e) = []
step_announcements c (sends sent net bytes e) = []
step_announcements c {y} (announces fresh) =
    let me = y.state.net.my_address in some (arp_hdr_bytes (announced me.my_mac me.my_ip)) ∷ []

unfoldable pub announcements : (c : Checksums) {y z : System} → Reach c y z → List (Option (List ℕ))
unfolding step_announcements
announcements c here = []
announcements c (next r s) = announcements c r ++ step_announcements c s

-- The headers, unicast first.
abbrev pub headers : L1DistributionHandler → List MrpFrameHdr
headers l1 = l1.l1_unicast_request_hdrs ++ l1.l1_multicast_request_hdrs

-- One frame for each header and each batch.
abbrev pub frames_of : Checksums → List MrpFrameHdr → List TriggerRawHdr → List (Option (List ℕ))
frames_of c hdrs batch = map (make_frame c (length batch) (payload batch)) hdrs

abbrev pub all_frames_of :
    Checksums → List MrpFrameHdr → List (List TriggerRawHdr) → List (Option (List ℕ))
all_frames_of c hdrs [] = []
all_frames_of c hdrs (b ∷ bs) = frames_of c hdrs b ++ all_frames_of c hdrs bs

-- The triggers of some batches, oldest first.
abbrev pub in_order : List (List TriggerRawHdr) → List TriggerRawHdr
in_order [] = []
in_order (b ∷ bs) = reverse b ++ in_order bs

pub in_order-append :
    (bs cs : List (List TriggerRawHdr)) → in_order (bs ++ cs) ≡ in_order bs ++ in_order cs
in_order-append [] cs = refl
in_order-append (b ∷ bs) cs =
    ap (◌++◌ (reverse b)) (in_order-append bs cs)
    ∙ sym (append_assoc (reverse b) (in_order bs) (in_order cs))

pub all_frames_of-append :
    (c : Checksums) (hdrs : List MrpFrameHdr) (bs cs : List (List TriggerRawHdr))
    → all_frames_of c hdrs (bs ++ cs) ≡ all_frames_of c hdrs bs ++ all_frames_of c hdrs cs
all_frames_of-append c hdrs [] cs = refl
all_frames_of-append c hdrs (b ∷ bs) cs =
    ap (◌++◌ (frames_of c hdrs b)) (all_frames_of-append c hdrs bs cs)
    ∙ sym (append_assoc (frames_of c hdrs b) (all_frames_of c hdrs bs) (all_frames_of c hdrs cs))

pub thread_frames-batch :
    (c : Checksums) (l1 : L1DistributionHandler) (m : Mark) (ts : List TriggerRawHdr)
    → thread_frames c l1 m ts
      ≡ all_frames_of c (headers l1) (batch_of l1.max_triggers_per_l1mrp m ts)
unfolding thread_frames mrp_frames batch_of
thread_frames-batch c l1 filling ts = refl
thread_frames-batch c l1 skipping ts = refl
thread_frames-batch c l1 popping ts = refl
thread_frames-batch c l1 sending [] = refl
thread_frames-batch c l1 sending (t ∷ ts) = sym (append-nil _)

-- What a step does beside queueing frames: it keeps the headers and the limit, and records a batch.
pub record Moves (s s' : ThreadState) (bs : List (List TriggerRawHdr)) : Type 0 where
  pub same_headers : headers s'.l1 ≡ headers s.l1
  pub same_max : s'.l1.max_triggers_per_l1mrp ≡ s.l1.max_triggers_per_l1mrp
  pub recorded : s'.trace.sent ≡ s.trace.sent ++ in_order bs

stays :
    (s s' : ThreadState)
    → headers s'.l1 ≡ headers s.l1
    → s'.l1.max_triggers_per_l1mrp ≡ s.l1.max_triggers_per_l1mrp
    → s'.trace.sent ≡ s.trace.sent
    → Moves s s' []
stays s s' h m r = record { same_headers = h; same_max = m; recorded = r ∙ sym (append-nil _) }

pub fill_step-Moves : (s : ThreadState) (q : List TriggerRawHdr) → Moves s (fill_step s q) []
unfolding fill_step
fill_step-Moves s [] = stays s _ refl refl refl
fill_step-Moves s (hdr ∷ q) = stays s _ (ground arith) (ground arith) (ground arith)

pub skip_step-Moves :
    (b : Bool) (s : ThreadState) (q : List TriggerRawHdr) → Moves s (skip_step b s q) []
unfolding skip_step
skip_step-Moves false s q = stays s _ refl refl refl
skip_step-Moves true s [] = stays s _ refl refl refl
skip_step-Moves true s (hdr ∷ q) = stays s _ refl refl refl

pub pop_step-Moves : (s : ThreadState) (q : List TriggerRawHdr) → Moves s (pop_step s q) []
unfolding pop_step
pop_step-Moves s [] = stays s _ refl refl refl
pop_step-Moves s (hdr ∷ q) = stays s _ refl refl refl

same_result : (a b : ThreadState) → some a ≡ some b → a ≡ b
same_result a b e = cc

pub send_step-Moves :
    (c : Checksums) (pushed : List TriggerRawHdr) (s s' : ThreadState) (ts : List TriggerRawHdr)
    → s.multicast_requests ≡ ts
    → send_step c s ts ≡ some s'
    → IsConsistent pushed s
    → Moves s s' (batch_of s.l1.max_triggers_per_l1mrp sending ts)
unfolding send_step batch_of
send_step-Moves c pushed s s' [] m e v =
    subst (λ x. Moves s x []) (same_result _ s' e)
      (stays s (record s { mark = filling }) refl refl refl)
send_step-Moves c pushed s s' (t ∷ ts) m e v =
    let max = s.l1.max_triggers_per_l1mrp in
    let fits : length (t ∷ ts) ≤ max = subst (λ l. length l ≤ max) m v.bounded in
    let none_left = drop_all max (t ∷ ts) fits in
    let whole : taken (t ∷ ts) (drop max (t ∷ ts)) ≡ take max (t ∷ ts) =
      rw none_left (take_all (length (t ∷ ts) - 0) (t ∷ ts) (omega arith))
      ∙ sym (take_all max (t ∷ ts) fits) in
    let r =
      async_send_mrp-Queues c s.l1 s.net (t ∷ ts) v.unicast_macs v.multicast_macs v.net_valid
        (let small = v.buffer_fits in omega (arith, length-take max (t ∷ ts))) in
    subst (λ x. Moves s x (take max (t ∷ ts) ∷ []))
      (same_result _ s' (sym (send_step_lem pushed s c t ts (drop max (t ∷ ts)) _ r.0 r.1) ∙ e))
      (record {
        same_headers = refl;
        same_max = refl;
        recorded =
            ap (λ l. s.trace.sent ++ reverse l) whole ∙ ap (◌++◌ s.trace.sent) (sym (append-nil _));
      })
