-- ===== src/L1Distribution/Thread/Sender.antt =====
-- A sender whose call of DoSendQueuedFrames is two steps, between which the other threads take theirs
-- (socket/PCapHandler.cpp, l1/L1DistributionHandler.cpp): one takes the first frame out of the queue, the
-- other gives it to the device.
pub mod Front
pub mod Whole
pub mod Received
pub mod Delivered
use na62_farm_lib_networking.Base.{ℕ, ◌≡◌, List, [], ◌∷◌, ◌++◌, Option, none, some, Bool, true}
use na62_farm_lib_networking.Ethernet.Checksum.{Checksums}
use na62_farm_lib_networking.Memory.{DataContainer}
use na62_farm_lib_networking.NetworkHandler.{Net}
use na62_farm_lib_networking.NetworkHandler.PCap.{give}
use na62_farm_lib_networking.NetworkHandler.Outbox.{all_put}
use na62_farm_lib_networking.L1Distribution.Thread.Outbox.{action}
use na62_farm_lib_networking.L1Distribution.Thread.Batches.{step_announcements}
use na62_farm_lib_networking.L1Distribution.Thread.InBurst.{StepsInBurst}
use na62_farm_lib_networking.L1Distribution.Thread.System.{
  System, with_net, requests, loops, sends, announces, Step,
}

-- `held` is the frame that the sender has taken out and not yet given to the device.
pub record Sending : Type 0 where
  pub system : System
  pub held : Option DataContainer

-- The sender is in no call.
abbrev pub outside : System → Sending
outside y = record { system = y; held = none }

abbrev pub with_queue : System → List DataContainer → System
with_queue y q = with_net y (record y.state.net { async_send_data = q })

-- A step of another thread.
abbrev pub IsBeside : {c : Checksums} {y z : System} → Step c y z → Type 0
IsBeside (requests flush_burst event z_suppressed) = Unit {0}
IsBeside (loops flush_burst s e) = Unit {0}
IsBeside (sends sent net bytes e) = ⊥
IsBeside (announces fresh) = Unit {0}

-- A step of another thread, the `try_pop` of the sender, or the rest of its call.
pub data SenderStep (c : Checksums) (y : Sending) : Sending → Type 0 where
  beside :
      {z : System} (s : Step c y.system z) → IsBeside s → SenderStep c y (record y { system = z })
  pops :
      (d : DataContainer) (q : List DataContainer)
      → y.held ≡ none
      → y.system.state.net.async_send_data ≡ d ∷ q
      → SenderStep c y (record { system = with_queue y.system q; held = some d })
  gives :
      (sent : Bool) (d : DataContainer) (net : Net) (bytes : ℕ)
      → y.held ≡ some d
      → give sent d y.system.state.net ≡ some (net, bytes)
      → SenderStep c y (record { system = with_net y.system net; held = none })

pub data Runs (c : Checksums) (y : Sending) : Sending → Type 0 where
  idle : Runs c y y
  more : {z w : Sending} → Runs c y z → SenderStep c z w → Runs c y w

-- `flushBurst()` is false whenever the thread asks, and `sendto` always works.
unfoldable pub RunsInBurst : (c : Checksums) {y z : Sending} → Runs c y z → Type 0
unfolding StepsInBurst
RunsInBurst c idle = Unit {0}
RunsInBurst c (more r (beside s b)) = RunsInBurst c r × StepsInBurst c s
RunsInBurst c (more r (pops d q e f)) = RunsInBurst c r
RunsInBurst c (more r (gives sent d net bytes e f)) = RunsInBurst c r

unfoldable pub AllSent : (c : Checksums) {y z : Sending} → Runs c y z → Type 0
AllSent c idle = Unit {0}
AllSent c (more r (beside s b)) = AllSent c r
AllSent c (more r (pops d q e f)) = AllSent c r
AllSent c (more r (gives sent d net bytes e f)) = AllSent c r × (sent ≡ true)

-- The announcements that a run queues, and all the frames.
unfoldable pub announced_by : (c : Checksums) {y z : Sending} → Runs c y z → List (Option (List ℕ))
unfolding step_announcements
announced_by c idle = []
announced_by c (more r (beside s b)) = announced_by c r ++ step_announcements c s
announced_by c (more r (pops d q e f)) = announced_by c r
announced_by c (more r (gives sent d net bytes e f)) = announced_by c r

unfoldable pub put_by : (c : Checksums) {y z : Sending} → Runs c y z → List (Option (List ℕ))
unfolding action
put_by c idle = []
put_by c (more r (beside s b)) = put_by c r ++ all_put (action c s ∷ [])
put_by c (more r (pops d q e f)) = put_by c r
put_by c (more r (gives sent d net bytes e f)) = put_by c r
