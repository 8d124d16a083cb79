-- ===== src/L1Distribution/Thread/Sender/Front.antt =====
-- The thread does the same whatever frame stands in front of the send queue
-- (l1/L1DistributionHandler.cpp).
use na62_farm_lib_networking.Base.{
  ◌≡◌, ◌∙◌, refl, ap, List, [], ◌∷◌, ◌++◌, reverse, Option, none, some, Bool, true, false,
  if◌then◌else◌, ◌==◌, length,
}
use mathlib.Core.Option
use na62_farm_lib_networking.Ethernet.Checksum.{Checksums}
use na62_farm_lib_networking.Memory.{DataContainer}
use na62_farm_lib_networking.Mrp.{TriggerRawHdr}
use na62_farm_lib_networking.NetworkHandler.{Net}
use na62_farm_lib_networking.L1Distribution.{L1DistributionHandler}
use na62_farm_lib_networking.L1Distribution.Sending.{async_send_mrp}
use na62_farm_lib_networking.L1Distribution.Sending.Front.{
  front, front_result, async_send_mrp-front,
}
use na62_farm_lib_networking.L1Distribution.Thread.{
  Mark, filling, skipping, popping, sending, ThreadState, fill_step, skip_step, pop_step, send_step,
  mark_step, thread_step, taken,
}

abbrev pub front_state : DataContainer → ThreadState → ThreadState
front_state d s = record s { net = front d s.net }

either {ℓ κ} :
    {A : Type ℓ} {B : Type κ} (h : A → B) (b : Bool) (x y : A)
    → (if b then h x else h y) ≡ h (if b then x else y)
either h true x y = refl
either h false x y = refl

fill_step-front :
    (d : DataContainer) (s : ThreadState) (q : List TriggerRawHdr)
    → fill_step (front_state d s) q ≡ front_state d (fill_step s q)
unfolding fill_step
fill_step-front d s [] = refl
fill_step-front d s (hdr ∷ q) =
    either (front_state d) (length s.multicast_requests == s.l1.max_triggers_per_l1mrp) _ _

skip_step-front :
    (d : DataContainer) (flush_burst : Bool) (s : ThreadState) (q : List TriggerRawHdr)
    → skip_step flush_burst (front_state d s) q ≡ front_state d (skip_step flush_burst s q)
unfolding skip_step
skip_step-front d false s q = refl
skip_step-front d true s [] = refl
skip_step-front d true s (hdr ∷ q) = refl

pop_step-front :
    (d : DataContainer) (s : ThreadState) (q : List TriggerRawHdr)
    → pop_step (front_state d s) q ≡ front_state d (pop_step s q)
unfolding pop_step
pop_step-front d s [] = refl
pop_step-front d s (hdr ∷ q) = refl

send_step-front :
    (c : Checksums) (d : DataContainer) (s : ThreadState) (ts : List TriggerRawHdr)
    → send_step c (front_state d s) ts ≡ Option.map (front_state d) (send_step c s ts)
unfolding send_step
send_step-front c d s [] = refl
send_step-front c d s (hdr ∷ ts) =
    ap (outcome d) (async_send_mrp-front c (hdr ∷ ts) s.l1 d s.net)
    ∙ go (async_send_mrp c (hdr ∷ ts) s.l1 s.net)
  where
    after : List TriggerRawHdr × L1DistributionHandler × Net → ThreadState
    after r = record {
      l1 = r.1;
      net = r.2;
      multicast_requests = r.0;
      mark = filling;
      trace = record s.trace { sent = s.trace.sent ++ reverse (taken (hdr ∷ ts) r.0) };
    }

    outcome :
        DataContainer
        → Option (List TriggerRawHdr × L1DistributionHandler × Net)
        → Option ThreadState
    outcome d r = elim r [ none ↦ none | some (rest, l1, net) ↦ some (after (rest, l1, net)) ]

    go :
        (r : Option (List TriggerRawHdr × L1DistributionHandler × Net))
        → outcome d (Option.map (front_result d) r) ≡ Option.map (front_state d) (outcome d r)
    go none = refl
    go (some r) = refl

-- A step of the thread does not look at what waits to be sent, and queues behind it.
pub thread_step-front :
    (c : Checksums) (flush_burst : Bool) (d : DataContainer) (s : ThreadState)
    → thread_step c flush_burst (front_state d s)
      ≡ Option.map (front_state d) (thread_step c flush_burst s)
unfolding thread_step mark_step
thread_step-front c flush_burst d s = go s.mark
  where
    queue : List TriggerRawHdr
    queue = s.l1.multicast_mrp_queue

    go :
        (m : Mark)
        → mark_step c flush_burst (front_state d s) m
          ≡ Option.map (front_state d) (mark_step c flush_burst s m)
    go filling = ap some (fill_step-front d s queue)
    go skipping = ap some (skip_step-front d flush_burst s queue)
    go popping = ap some (pop_step-front d s queue)
    go sending = send_step-front c d s s.multicast_requests
