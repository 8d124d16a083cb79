-- ===== src/L1Distribution/Requests.antt =====
-- `Async_RequestL1DataMulticast` (l1/L1DistributionHandler.cpp) over a series of calls.
use mathlib.Core.List.{append-nil, append_assoc}
use na62_farm_lib_networking.Base.{◌≡◌, ◌∙◌, ap, sym, List, [], ◌∷◌, ◌++◌, Bool, true, false, refl}
use na62_farm_lib_networking.Mrp.{TriggerRawHdr, Event, generate_trigger_hdr}
use na62_farm_lib_networking.L1Distribution.{L1DistributionHandler, async_request_l1_data_multicast}

-- What `flushBurst()` says at the call, and the call's arguments.
pub record Request : Type 0 where
  pub flush_burst : Bool
  pub event : Event
  pub z_suppressed : Bool

pub run : List Request → L1DistributionHandler → L1DistributionHandler
run [] l1 = l1
run (r ∷ rs) l1 = run rs (async_request_l1_data_multicast r.flush_burst r.event r.z_suppressed l1)

-- The triggers of the calls that were made before the end of the burst.
abbrev pub accepted : List Request → List TriggerRawHdr
accepted [] = []
accepted (r ∷ rs) = elim r.flush_burst [
  | true ↦ accepted rs
  | false ↦ generate_trigger_hdr r.event r.z_suppressed ∷ accepted rs
]

-- After any calls the queue has what it had, and then the trigger of each call that was not made
-- after the end of the burst, in the order of the calls; nothing else changes.
pub run-accepted :
    (rs : List Request) (l1 : L1DistributionHandler)
    → run rs l1 ≡ record l1 { multicast_mrp_queue = l1.multicast_mrp_queue ++ accepted rs }
unfolding run async_request_l1_data_multicast
run-accepted [] l1 =
    ap (λ q. record l1 { multicast_mrp_queue = q }) (sym (append-nil l1.multicast_mrp_queue))
run-accepted (r ∷ rs) l1 = go r.flush_burst refl (run-accepted rs)
  where
    go :
        (b : Bool)
        → r.flush_burst ≡ b
        → ((l : L1DistributionHandler)
            → run rs l ≡ record l { multicast_mrp_queue = l.multicast_mrp_queue ++ accepted rs })
        → run (r ∷ rs) l1
          ≡ record l1 { multicast_mrp_queue = l1.multicast_mrp_queue ++ accepted (r ∷ rs) }
    go true e ih = rw (e, accepted) (ih l1)
    go false e ih =
        rw (e, accepted)
          (ih _
            ∙ ap (λ q. record l1 { multicast_mrp_queue = q })
                (append_assoc l1.multicast_mrp_queue
                  (generate_trigger_hdr r.event r.z_suppressed ∷ []) (accepted rs)))
