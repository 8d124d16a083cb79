-- ===== src/NetworkHandler/PFring/Runs.antt =====
-- The threads of the PF_RING build beside one another, over whole runs (socket/PFringHandler.cpp).
mod Tests
use mathlib.Core.List.{append-nil, append_assoc}
use na62_farm_lib_networking.Base.{
  ℕ, ◌+◌, ◌≤◌, ◌≡◌, ◌∙◌, ◌⊎◌, refl, sym, ap, List, [], ◌∷◌, ◌++◌, Option, none, some, true, false,
  inl, inr, arith, length, Bool-cases, ltb,
}
use na62_farm_lib_networking.Memory.{DataContainer}
use na62_farm_lib_networking.NetworkHandler.{Net, async_send_frame}
use na62_farm_lib_networking.NetworkHandler.PFring.{
  Rc, bytes, Ring, capacity, push_frame, do_send, do_send_queued_frames,
}
use na62_farm_lib_networking.NetworkHandler.PFring.Sending.{Succeeds, Sends, pfring_send-Sends}
use na62_farm_lib_networking.NetworkHandler.PFring.Emptied.{accepted}
use na62_farm_lib_networking.NetworkHandler.PFring.System.{
  Threads, announcement, IsSound, Step, Reach, starts, announces, queues, sends, here, next,
}
use na62_farm_lib_networking.NetworkHandler.PFring.Flow.{
  accepted-append, flow, Puts, starts-Puts, announces-Puts, queues-Puts,
}
use na62_farm_lib_networking.NetworkHandler.PFring.Beside.{sends-Puts}

-- The frames that a step and a run push.
unfoldable pub step_puts : {y z : Threads} → Step y z → List (Option (List ℕ))
step_puts (starts fresh e) = []
step_puts {y} (announces arp net e p) = some (announcement y.net) ∷ []
step_puts (queues frame net p) = some frame ∷ []
step_puts (sends ring n net rc works s e) = []

unfoldable pub puts : {y z : Threads} → Reach y z → List (Option (List ℕ))
unfolding step_puts
puts here = []
puts (next r s) = puts r ++ step_puts s

Step-Puts : {y z : Threads} (s : Step y z) → IsSound y → Puts (step_puts s) y z
unfolding step_puts
Step-Puts {y} (starts fresh e) v = starts-Puts fresh y v
Step-Puts {y} (announces arp net e p) v = announces-Puts arp y net e p v
Step-Puts {y} (queues frame net p) v = queues-Puts frame y net p v
Step-Puts {y} (sends ring n net rc works s e) v = sends-Puts ring n y net rc works s e v

-- In every run of the thread, of callers with new frames and of senders whose rings accept a frame
-- sooner or later, in whatever order they take their steps, but where a sender's call, with its retries, is
-- over before the next step of any thread, so that no two senders are in calls at once: the queue stays within its 1000 frames and can be
-- read and freed safely; and what is on the wire, with what is queued behind it, is what it was
-- before, followed by the frames pushed, in order, each with zeros up to 60 bytes, but for those of more
-- than 1500 bytes, which are lost.
pub Reach-flows :
    {y z : Threads} (r : Reach y z)
    → IsSound y
    → IsSound z × (flow z.net ≡ flow y.net ++ accepted (puts r))
unfolding puts
Reach-flows {y} here v = (v, sym (append-nil (flow y.net)))
Reach-flows {y} (next r s) v =
    let ih = Reach-flows r v in
    let p = Step-Puts s ih.0 in
    (
      p.sound,
      p.flows
          ∙ (ap (λ l. l ++ accepted (step_puts s)) ih.1
              ∙ (append_assoc (flow y.net) (accepted (puts r)) (accepted (step_puts s))
                  ∙ ap (◌++◌ (flow y.net)) (sym (accepted-append (puts r) (step_puts s))))),
    )

push_frame-room :
    (frame : DataContainer) (net : Net)
    → length net.async_send_data + 1 ≤ capacity
    → push_frame frame net ≡ some (async_send_frame frame net)
unfolding push_frame
push_frame-room frame net room =
    let free : ltb (length net.async_send_data) capacity ≡ true = ground arith in rw free refl

-- In every state that such a run reaches, a call of a sender with an open ring that accepts a frame sooner or
-- later returns; and a push returns at once, or else the queue is full and the push returns if it is the
-- next step after that call. It is not said that a sender calls, or that no other push comes first.
pub Reach-proceeds :
    {y z : Threads} (r : Reach y z) (frame : DataContainer) (ring : Ring) (n : ℕ)
    → IsSound y
    → ring.is_open ≡ true
    → Succeeds n ring.answers
    → (out : Net) × (rc : Rc) × (do_send_queued_frames ring z.net ≡ some (out, rc))
      × ((push_frame frame z.net ≡ some (async_send_frame frame z.net))
          ⊎ ((length z.net.async_send_data ≡ capacity)
              × (push_frame frame out ≡ some (async_send_frame frame out))))
unfolding do_send_queued_frames do_send
Reach-proceeds {z = z} r frame ring n v works s = go z.net.async_send_data refl
  where
    w : IsSound z
    w = (Reach-flows r v).0

    go :
        (q : List DataContainer)
        → z.net.async_send_data ≡ q
        → (out : Net) × (rc : Rc) × (do_send_queued_frames ring z.net ≡ some (out, rc))
          × ((push_frame frame z.net ≡ some (async_send_frame frame z.net))
              ⊎ ((length z.net.async_send_data ≡ capacity)
                  × (push_frame frame out ≡ some (async_send_frame frame out))))
    go [] e = (
      z.net,
      bytes 0,
      ap (λ l. do_send ring l z.net) e,
      inl (push_frame-room frame z.net (let none_queued = ap length e in omega arith)),
    )
    go (d ∷ q) e =
        let sent = pfring_send-Sends ring n z.net d q works s w.valid e in
        let size = ap length e in
        let left = ap length sent.3.next_in_queue in
        (
          sent.0,
          sent.1,
          sent.2,
          elim (Bool-cases (ltb (length z.net.async_send_data) capacity)) [
            | inl room ↦ inl (push_frame-room frame z.net (ground arith))
            | inr full ↦ inr (
                let bound = w.bounded in
                let at_limit : length z.net.async_send_data ≡ capacity = ground arith in
                (at_limit, push_frame-room frame sent.0 (omega arith)))
          ],
        )
