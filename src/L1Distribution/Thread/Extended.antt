-- ===== src/L1Distribution/Thread/Extended.antt =====
-- Runs that go on: the thread takes further steps, and senders take out what is queued
-- (l1/L1DistributionHandler.cpp, socket/PCapHandler.cpp).
use mathlib.Core.Path.{subst}
use mathlib.Core.List.{append-nil}
use na62_farm_lib_networking.Base.{
  ℕ, zero, suc, ◌≡◌, ◌∙◌, refl, sym, ap, List, [], ◌∷◌, ◌++◌, none, some, true, false, Option-cases,
  inl, inr,
}
use na62_farm_lib_networking.Ethernet.Checksum.{Checksums}
use na62_farm_lib_networking.Memory.{DataContainer}
use na62_farm_lib_networking.NetworkHandler.Outbox.{Action, puts, takes, AllGiven}
use na62_farm_lib_networking.NetworkHandler.PCap.Sending.{do_send_queued_frames-Sends}
use na62_farm_lib_networking.L1Distribution.Thread.{ThreadState, thread_step}
use na62_farm_lib_networking.L1Distribution.Thread.Invariant.{IsConsistent}
use na62_farm_lib_networking.L1Distribution.Thread.Progress.{run_thread}
use na62_farm_lib_networking.L1Distribution.Thread.Outbox.{action, actions}
use na62_farm_lib_networking.L1Distribution.Thread.Batches.{step_announcements, announcements}
use na62_farm_lib_networking.L1Distribution.Thread.InBurst.{StepsInBurst, IsInBurst}
use na62_farm_lib_networking.L1Distribution.Thread.System.{
  here, System, loops, sends, Step, Reach, next, with_net, Reach-IsConsistent,
}

-- A run to `w` that asks for nothing more and announces nothing more than the run `r`.
pub record Extends (c : Checksums) {y z : System} (r : Reach c y z) (w : System) : Type 0 where
  pub onward : Reach c z w
  pub longer : Reach c y w
  pub in_burst : IsInBurst c longer
  pub given : AllGiven (actions c longer)
  pub same_pushed : w.pushed ≡ z.pushed
  pub same_announced : announcements c longer ≡ announcements c r

pub Reach-trans : (c : Checksums) {y z w : System} → Reach c y z → Reach c z w → Reach c y w
Reach-trans c r here = r
Reach-trans c r (next q s) = next (Reach-trans c r q) s

pub AllGiven-append : (as' bs : List Action) → AllGiven as' → AllGiven bs → AllGiven (as' ++ bs)
AllGiven-append [] bs p q = q
AllGiven-append (puts frames ∷ as') bs p q = AllGiven-append as' bs p q
AllGiven-append (takes sent ∷ as') bs p q = (p.0, AllGiven-append as' bs p.1 q)

-- A run that extends `r` by one step that asks for nothing and announces nothing.
further :
    (c : Checksums) {y z z' w : System} (r : Reach c y z) (s : Step c z z')
    → z'.pushed ≡ z.pushed
    → step_announcements c s ≡ []
    → Extends c (next r s) w
    → Extends c r w
unfolding announcements
further c r s pushed quiet x = record {
  onward = Reach-trans c (next here s) x.onward;
  longer = x.longer;
  in_burst = x.in_burst;
  given = x.given;
  same_pushed = x.same_pushed ∙ pushed;
  same_announced =
      x.same_announced ∙ (ap (◌++◌ (announcements c r)) quiet ∙ append-nil (announcements c r));
}

itself :
    (c : Checksums) {y z : System} (r : Reach c y z)
    → IsInBurst c r
    → AllGiven (actions c r)
    → Extends c r z
itself c r b g = record {
  onward = here;
  longer = r;
  in_burst = b;
  given = g;
  same_pushed = refl;
  same_announced = refl;
}

pub run_thread-Extends :
    (n : ℕ) (c : Checksums) {y z : System} (r : Reach c y z) (s : ThreadState)
    → IsInBurst c r
    → AllGiven (actions c r)
    → run_thread n c z.state ≡ some s
    → Extends c r (record z { state = s })
unfolding run_thread IsInBurst StepsInBurst actions action step_announcements
run_thread-Extends zero c {z = z} r s b g e =
    let same : z.state ≡ s = cc in
    subst (λ x. Extends c r (record z { state = x })) same (itself c r b g)
run_thread-Extends (suc n) c {z = z} r s b g e = elim (Option-cases (thread_step c false z.state)) [
  | inl gone ↦
      let refused : run_thread (suc n) c z.state ≡ none =
        ap (λ o. elim o [ none ↦ none | some s' ↦ run_thread n c s' ]) gone in
      absurd cc
  | inr (s', f) ↦
      let rest : run_thread n c s' ≡ some s =
        sym (ap (λ o. elim o [ none ↦ none | some s'' ↦ run_thread n c s'' ]) f) ∙ e in
      further c r (loops false s' f) refl refl (
        run_thread-Extends n c (next r (loops false s' f)) s (b, refl)
          (AllGiven-append (actions c r) _ g tt) rest)
]

pub record Sent (c : Checksums) {y z : System} (r : Reach c y z) (w : System) : Type 0 where
  pub extends : Extends c r w
  pub none_waits : w.state.net.async_send_data ≡ []
  pub same_handler : w.state.l1 ≡ z.state.l1
  pub same_vector : w.state.multicast_requests ≡ z.state.multicast_requests

pub senders-Sent :
    (q : List DataContainer) (c : Checksums) {y z : System} (r : Reach c y z)
    → IsConsistent y.pushed y.state
    → IsInBurst c r
    → AllGiven (actions c r)
    → z.state.net.async_send_data ≡ q
    → (w : System) × Sent c r w
unfolding IsInBurst StepsInBurst actions action step_announcements
senders-Sent [] c {z = z} r v b g e = (
  z,
  record { extends = itself c r b g; none_waits = e; same_handler = refl; same_vector = refl },
)
senders-Sent (d ∷ q) c {z = z} r v b g e =
    let net = z.state.net in
    let sent = do_send_queued_frames-Sends true net d q (Reach-IsConsistent c r v).net_valid e in
    let s : Step c z (with_net z sent.0) = sends true sent.0 sent.1 sent.2 in
    let rest =
      senders-Sent q c (next r s) v (b, tt) (AllGiven-append (actions c r) _ g (refl, tt))
        sent.3.next_in_queue in
    (
      rest.0,
      record {
        extends = further c r s refl refl rest.1.extends;
        none_waits = rest.1.none_waits;
        same_handler = rest.1.same_handler;
        same_vector = rest.1.same_vector;
      },
    )
