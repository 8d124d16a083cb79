-- ===== src/L1Distribution/Thread/Sender/Whole.antt =====
-- A run in which a sender calls in two steps is a run of whole calls, seen with the frame that the sender
-- holds still in front of the queue (socket/PCapHandler.cpp).
use mathlib.Core.Path.{subst, ap₂}
use mathlib.Core.Option
use mathlib.Core.List.{append-nil}
use na62_farm_lib_networking.Base.{
  ℕ, ◌≡◌, ◌∙◌, refl, ap, List, [], ◌∷◌, ◌++◌, Option, none, some, Bool, true,
}
use na62_farm_lib_networking.Ethernet.Checksum.{Checksums}
use na62_farm_lib_networking.Ethernet.Frames.{generate_gratuitous_arpv4}
use na62_farm_lib_networking.Memory.{DataContainer}
use na62_farm_lib_networking.NetworkHandler.{Net, async_send_frame}
use na62_farm_lib_networking.NetworkHandler.Outbox.{AllGiven, all_put}
use na62_farm_lib_networking.L1Distribution.Thread.Carried.{all_put-append}
use na62_farm_lib_networking.L1Distribution.Thread.Extended.{AllGiven-append}
use na62_farm_lib_networking.NetworkHandler.PCap.{give, thread_round}
use na62_farm_lib_networking.NetworkHandler.PCap.Sending.{do_send_queued_frames-give}
use na62_farm_lib_networking.L1Distribution.Thread.Outbox.{action, actions}
use na62_farm_lib_networking.L1Distribution.Thread.Batches.{step_announcements, announcements}
use na62_farm_lib_networking.L1Distribution.Thread.InBurst.{StepsInBurst, IsInBurst}
use na62_farm_lib_networking.L1Distribution.Thread.System.{
  System, with_net, requests, loops, sends, announces, Step, Reach, here, next,
}
use na62_farm_lib_networking.L1Distribution.Thread.Sender.{
  Sending, with_queue, IsBeside, beside, pops, gives, Runs, idle, more, RunsInBurst, AllSent,
  announced_by, put_by,
}
use na62_farm_lib_networking.L1Distribution.Thread.Sender.Front.{front_state, thread_step-front}

-- The frame that is held goes back in front of the queue.
abbrev pub before : Option DataContainer → System → System
before none y = y
before (some d) y = record y { state = front_state d y.state }

abbrev pub whole : Sending → System
whole y = before y.held y.system

module _ (c : Checksums) where
  lift :
      (h : Option DataContainer) {y z : System} (s : Step c y z)
      → IsBeside s
      → Step c (before h y) (before h z)
  unfolding thread_round async_send_frame generate_gratuitous_arpv4
  lift none s b = s
  lift (some d) (requests flush_burst event z_suppressed) b =
      requests flush_burst event z_suppressed
  lift (some d) {y} (loops flush_burst s e) b =
      loops flush_burst (front_state d s)
        (thread_step-front c flush_burst d y.state ∙ ap (Option.map (front_state d)) e)
  lift (some d) (announces fresh) b = announces fresh
  lift (some d) (sends sent net bytes e) b = absurd b

  lift-burst :
      (h : Option DataContainer) {y z : System} (s : Step c y z) (b : IsBeside s)
      → StepsInBurst c s
      → StepsInBurst c (lift h s b)
  unfolding StepsInBurst lift
  lift-burst none s b p = p
  lift-burst (some d) (requests flush_burst event z_suppressed) b p = tt
  lift-burst (some d) (loops flush_burst s e) b p = p
  lift-burst (some d) (announces fresh) b p = tt
  lift-burst (some d) (sends sent net bytes e) b p = absurd b

  lift-announced :
      (h : Option DataContainer) {y z : System} (s : Step c y z) (b : IsBeside s)
      → step_announcements c (lift h s b) ≡ step_announcements c s
  unfolding step_announcements lift
  lift-announced none s b = refl
  lift-announced (some d) (requests flush_burst event z_suppressed) b = refl
  lift-announced (some d) (loops flush_burst s e) b = refl
  lift-announced (some d) (announces fresh) b = refl
  lift-announced (some d) (sends sent net bytes e) b = absurd b

  lift-action :
      (h : Option DataContainer) {y z : System} (s : Step c y z) (b : IsBeside s)
      → action c (lift h s b) ≡ action c s
  unfolding action lift
  lift-action none s b = refl
  lift-action (some d) (requests flush_burst event z_suppressed) b = refl
  lift-action (some d) (loops flush_burst s e) b = refl
  lift-action (some d) (announces fresh) b = refl
  lift-action (some d) (sends sent net bytes e) b = absurd b

  lift-given :
      (h : Option DataContainer) {y z : System} (s : Step c y z) (b : IsBeside s)
      → AllGiven (action c (lift h s b) ∷ [])
  unfolding action lift
  lift-given none (requests flush_burst event z_suppressed) b = tt
  lift-given none (loops flush_burst s e) b = tt
  lift-given none (announces fresh) b = tt
  lift-given none (sends sent net bytes e) b = absurd b
  lift-given (some d) (requests flush_burst event z_suppressed) b = tt
  lift-given (some d) (loops flush_burst s e) b = tt
  lift-given (some d) (announces fresh) b = tt
  lift-given (some d) (sends sent net bytes e) b = absurd b

  -- A run of whole calls to `v`, which is in a burst and sends all if `B` and `G` hold, and which puts the
  -- announcements `told` and the frames `frames`.
  pub record Matches (y v : System) (B G : Type 0) (told frames : List (Option (List ℕ)))
      : Type 0 where
    pub run : Reach c y v
    pub burst : B → IsInBurst c run
    pub given : G → AllGiven (actions c run)
    pub announced : announcements c run ≡ told
    pub put : all_put (actions c run) ≡ frames

  -- The result of a `try_pop`, with the frame put back, is the state before it.
  popped_back :
      (y : Sending) (d : DataContainer) (q : List DataContainer)
      → y.held ≡ none
      → y.system.state.net.async_send_data ≡ d ∷ q
      → whole y ≡ before (some d) (with_queue y.system q)
  popped_back y d q e f = ap (λ h. before h y.system) e ∙ ap (with_queue y.system) f

  Matches-beside :
      {y v w : System} {B G : Type 0} {told frames : List (Option (List ℕ))}
      (h : Option DataContainer) (s : Step c v w) (b : IsBeside s)
      → Matches y (before h v) B G told frames
      → Matches y
          (before h w)
          (B × StepsInBurst c s)
          G
          (told ++ step_announcements c s)
          (frames ++ all_put (action c s ∷ []))
  unfolding IsInBurst actions announcements
  Matches-beside h s b m = record {
    run = next m.run (lift h s b);
    burst = λ p. (m.burst p.0, lift-burst h s b p.1);
    given = λ g. AllGiven-append (actions c m.run) _ (m.given g) (lift-given h s b);
    announced = ap₂ ◌++◌ m.announced (lift-announced h s b);
    put =
        all_put-append (actions c m.run) _
        ∙ ap₂ ◌++◌ m.put (ap (λ a. all_put (a ∷ [])) (lift-action h s b));
  }

  pub Matches-gives :
      {y v : System} {B G : Type 0} {told frames : List (Option (List ℕ))} (sent : Bool)
      (d : DataContainer) (net : Net) (bytes : ℕ)
      → give sent d v.state.net ≡ some (net, bytes)
      → Matches y (before (some d) v) B G told frames
      → Matches y (with_net v net) B (G × (sent ≡ true)) told frames
  unfolding IsInBurst StepsInBurst actions action announcements step_announcements
  Matches-gives {v = v} sent d net bytes e m = record {
    run =
        next m.run
          (sends sent net bytes (do_send_queued_frames-give sent d v.state.net net bytes e));
    burst = λ p. (m.burst p, tt);
    given = λ g. AllGiven-append (actions c m.run) _ (m.given g.0) (g.1, tt);
    announced = append-nil _ ∙ m.announced;
    put = all_put-append (actions c m.run) _ ∙ (append-nil _ ∙ m.put);
  }

  -- The frame that is held being put back, every run is one of whole calls.
  pub Runs-Matches :
      {y z : Sending} (r : Runs c y z)
      → Matches (whole y) (whole z) (RunsInBurst c r) (AllSent c r) (announced_by c r) (put_by c r)
  unfolding RunsInBurst AllSent announced_by put_by IsInBurst actions announcements
  Runs-Matches idle = record {
    run = here;
    burst = λ p. tt;
    given = λ p. tt;
    announced = refl;
    put = refl;
  }
  Runs-Matches (more {z} r (beside s b)) = Matches-beside z.held s b (Runs-Matches r)
  Runs-Matches {y} (more {z} r (pops d q e f)) =
      subst
        (λ v. Matches (whole y) v (RunsInBurst c r) (AllSent c r) (announced_by c r) (put_by c r))
        (popped_back z d q e f) (Runs-Matches r)
  Runs-Matches {y} (more {z} r (gives sent d net bytes e f)) = Matches-gives sent d net bytes f (
      subst
        (λ h.
          Matches (whole y) (before h z.system) (RunsInBurst c r) (AllSent c r) (announced_by c r)
            (put_by c r))
        e (Runs-Matches r))
