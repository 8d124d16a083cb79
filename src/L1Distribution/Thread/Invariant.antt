-- ===== src/L1Distribution/Thread/Invariant.antt =====
-- What holds each time round the loops of the thread (l1/L1DistributionHandler.cpp).
use na62_farm_lib_networking.Base.{
  ◌+◌, ◌*◌, ◌≤◌, ◌<◌, ◌^◌, ◌≡◌, refl, ap, List, [], ◌∷◌, ◌++◌, reverse, Bool, true, false, ◌⊎◌,
  length, u64,
}
use na62_farm_lib_networking.Mrp.{TriggerRawHdr}
use na62_farm_lib_networking.NetworkHandler.Safety.{NetIsValid}
use na62_farm_lib_networking.L1Distribution.{get_l1_triggers_sent}
use na62_farm_lib_networking.L1Distribution.Sending.Batch.{AllHaveMacs}
use na62_farm_lib_networking.L1Distribution.Thread.{
  Mark, filling, skipping, popping, sending, Popped, skipped, kept, ThreadState,
}

-- All triggers popped, and those put into the vector.
abbrev pub popped : List Popped → List TriggerRawHdr
popped [] = []
popped (skipped t ∷ ps) = t ∷ popped ps
popped (kept t ∷ ps) = t ∷ popped ps

abbrev pub kept_only : List Popped → List TriggerRawHdr
kept_only [] = []
kept_only (skipped t ∷ ps) = kept_only ps
kept_only (kept t ∷ ps) = t ∷ kept_only ps

-- The thread is past the test of the filling loop.
abbrev pub fills : Mark → Bool
fills filling = false
fills skipping = true
fills popping = true
fills sending = false

-- `pushed` is everything that was put into the queue. While the thread fills its vector there is
-- room in it.
pub record IsConsistent (pushed : List TriggerRawHdr) (s : ThreadState) : Type 0 where
  pub net_valid : NetIsValid s.net
  pub unicast_macs : AllHaveMacs s.l1.l1_unicast_request_hdrs
  pub multicast_macs : AllHaveMacs s.l1.l1_multicast_request_hdrs
  pub buffer_fits : 54 + 12 * s.l1.max_triggers_per_l1mrp < 2 ^ 32
  pub bounded : length s.multicast_requests ≤ s.l1.max_triggers_per_l1mrp
  pub room : (fills s.mark ≡ false) ⊎ (length s.multicast_requests < s.l1.max_triggers_per_l1mrp)
  pub none_lost : popped s.trace.history ++ s.l1.multicast_mrp_queue ≡ pushed
  pub sent_once : kept_only s.trace.history ≡ s.trace.sent ++ reverse s.multicast_requests
  pub counted : get_l1_triggers_sent s.l1 ≡ u64 (length s.trace.sent)

pub popped-append : (ps qs : List Popped) → popped (ps ++ qs) ≡ popped ps ++ popped qs
popped-append [] qs = refl
popped-append (skipped t ∷ ps) qs = ap (◌∷◌ t) (popped-append ps qs)
popped-append (kept t ∷ ps) qs = ap (◌∷◌ t) (popped-append ps qs)

pub kept_only-append : (ps qs : List Popped) → kept_only (ps ++ qs) ≡ kept_only ps ++ kept_only qs
kept_only-append [] qs = refl
kept_only-append (skipped t ∷ ps) qs = kept_only-append ps qs
kept_only-append (kept t ∷ ps) qs = ap (◌∷◌ t) (kept_only-append ps qs)
