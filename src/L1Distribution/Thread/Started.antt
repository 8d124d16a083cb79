-- ===== src/L1Distribution/Thread/Started.antt =====
-- The state in which the thread starts after `Initialize` (l1/L1DistributionHandler.cpp).
use mathlib.Core.Path.{subst}
use na62_farm_lib_networking.Base.{
  ℕ, ◌+◌, ◌*◌, ◌<◌, ◌^◌, ◌≡◌, refl, sym, List, [], ◌∷◌, some, inl, arith, length,
}
use na62_farm_lib_networking.Ethernet.Mac.{string_to_mac}
use na62_farm_lib_networking.Ethernet.Frames.{MyAddress}
use na62_farm_lib_networking.Mrp.{MrpFrameHdr}
use na62_farm_lib_networking.NetworkHandler.{Net}
use na62_farm_lib_networking.NetworkHandler.Safety.{NetIsValid}
use na62_farm_lib_networking.L1Distribution.{
  L1DistributionHandler, start, Resolver, Options, initialize,
}
use na62_farm_lib_networking.L1Distribution.Setup.{initialize-IsInitialized}
use na62_farm_lib_networking.L1Distribution.Headers.{AllFor}
use na62_farm_lib_networking.L1Distribution.Sending.Batch.{AllHaveMacs}
use na62_farm_lib_networking.L1Distribution.Thread.{filling, ThreadState}
use na62_farm_lib_networking.L1Distribution.Thread.Invariant.{IsConsistent}

AllHaveMacs-AllFor {ℓ} :
    {A : Type ℓ} (me : MyAddress) (mac : A → List ℕ) (ip : A → ℕ) (s d : ℕ) (xs : List A)
    (hs : List MrpFrameHdr)
    → AllFor me mac ip s d xs hs
    → AllHaveMacs hs
AllHaveMacs-AllFor me mac ip s d [] [] a = tt
AllHaveMacs-AllFor me mac ip s d [] (h ∷ hs) a = absurd a
AllHaveMacs-AllFor me mac ip s d (x ∷ xs) [] a = absurd a
AllHaveMacs-AllFor me mac ip s d (x ∷ xs) (h ∷ hs) a =
    (a.0.macs, AllHaveMacs-AllFor me mac ip s d xs hs a.1)

-- `thread` before its first test.
abbrev pub first_state : L1DistributionHandler → Net → ThreadState
first_state l1 net = record {
  l1 = l1;
  net = net;
  multicast_requests = [];
  mark = filling;
  trace = record { history = []; sent = [] };
}

-- With six bytes as this machine's MAC, a gateway MAC that is read, a limit of triggers for which the
-- size of an MRP fits 32 bits, and a valid network state, `Initialize` returns from the members'
-- initial values, and the thread starts in a consistent state.
pub initialize-IsConsistent :
    (me : MyAddress) (resolver : Resolver) (o : Options) (left_over : ℕ → ℕ) (mac : List ℕ)
    (net : Net)
    → length me.my_mac ≡ 6
    → string_to_mac o.gateway_mac ≡ some mac
    → 54 + 12 * o.max_triggers_per_mrp < 2 ^ 32
    → NetIsValid net
    → (l1 : L1DistributionHandler) × (initialize me resolver o left_over start ≡ some l1)
      × IsConsistent [] (first_state l1 net)
initialize-IsConsistent me resolver o left_over mac net mine e small v =
    let (l1, returned, i) = initialize-IsInitialized me resolver o left_over mine start mac e in
    (
      l1,
      returned,
      record {
        net_valid = v;
        unicast_macs =
            subst AllHaveMacs (sym i.unicast_added)
              (AllHaveMacs-AllFor me _ _ _ _ _ _ i.unicast_ready);
        multicast_macs =
            subst AllHaveMacs (sym i.multicast_added)
              (AllHaveMacs-AllFor me _ _ _ _ _ _ i.multicast_ready);
        buffer_fits = let m = i.max_set in omega arith;
        bounded = omega arith;
        room = inl refl;
        none_lost = i.queue_kept;
        sent_once = refl;
        counted = i.triggers_kept;
      },
    )
