-- ===== src/L1Distribution/Thread/Program.antt =====
-- From the constructor of NetworkHandler and `Initialize` to what the receivers read
-- (socket/PCapHandler.cpp, l1/L1DistributionHandler.cpp).
mod Tests
use na62_farm_lib_networking.Base.{ℕ, ◌≡◌, List, [], ◌++◌, map, reverse, Option, none, u32}
use na62_farm_lib_networking.Ethernet.Frames.{MyAddress}
use na62_farm_lib_networking.NetworkHandler.{Net}
use na62_farm_lib_networking.NetworkHandler.Outbox.{AllGiven, all_frames, outbox}
use na62_farm_lib_networking.L1Distribution.{
  L1DistributionHandler, Resolver, Options, with_left_over,
}
use na62_farm_lib_networking.L1Distribution.Headers.{address_of}
use na62_farm_lib_networking.L1Distribution.Thread.Invariant.{IsConsistent}
use na62_farm_lib_networking.L1Distribution.Thread.Started.{first_state}
use na62_farm_lib_networking.L1Distribution.Thread.Outbox.{actions}
use na62_farm_lib_networking.L1Distribution.Thread.Batches.{announcements, headers}
use na62_farm_lib_networking.L1Distribution.Thread.InBurst.{IsInBurst}
use na62_farm_lib_networking.L1Distribution.Thread.Received.{Reach-received}
use na62_farm_lib_networking.L1Distribution.Thread.System.{System, Reach}

-- The addresses that `Initialize` finds for the options' texts, unicast first: where `inet_pton` refuses a
-- text, what was on the stack.
abbrev pub receivers : Resolver → (ℕ → ℕ) → Options → List ℕ
receivers resolver left_over o =
    map (address_of resolver) (with_left_over left_over 0 o.unicast_address)
    ++ map (λ g. u32 (resolver.inet_addr g)) o.multicast_group_names

-- The state in which the threads start.
abbrev pub started : L1DistributionHandler → Net → System
started l1 net = record { state = first_state l1 net; pushed = [] }

record Set (me : MyAddress) (resolver : Resolver) (o : Options) (left_over : ℕ → ℕ) (net : Net)
    (l1 : L1DistributionHandler) : Type 0 where
  consistent : IsConsistent [] (first_state l1 net)
  to : map (λ h. h.udp.ip.daddr) (headers l1) ≡ receivers resolver left_over o
  limit : l1.max_triggers_per_l1mrp ≡ o.max_triggers_per_mrp
