-- ===== src/NetworkHandler/PFring/Emptied.antt =====
-- Calls of `DoSendQueuedFrames` one after another over PF_RING (socket/PFringHandler.cpp).
use mathlib.Core.Path.{subst}
use mathlib.Core.List.{append-nil, append_assoc}
use na62_farm_lib_networking.Base.{
  ℕ, Bool-cases, inl, inr, ◌-◌, ◌≡◌, ◌∙◌, ap, refl, List, [], ◌∷◌, ◌++◌, Option, none, some, true,
  ltb, if◌then◌else◌, length, sym, replicate, ◌>>=◌,
}
use na62_farm_lib_networking.Memory.{Heap, DataContainer}
use na62_farm_lib_networking.NetworkHandler.{Net, load}
use na62_farm_lib_networking.NetworkHandler.Safety.{IsLive, AreSafe, NetIsValid, load-some}
use na62_farm_lib_networking.NetworkHandler.Queued.{queued}
use na62_farm_lib_networking.NetworkHandler.Outbox.{kept_frames}
use na62_farm_lib_networking.NetworkHandler.PFring.{Rc, Ring, do_send_queued_frames}
use na62_farm_lib_networking.NetworkHandler.PFring.Sending.{Succeeds, Sends, pfring_send-Sends}

-- One call for each ring state.
pub send_each : List Ring → Net → Option Net
send_each [] net = some net
send_each (ring ∷ rings) net = do_send_queued_frames ring net >>= λ (net', rc). send_each rings net'

-- A ring that is open and accepts a frame sooner or later, for each frame.
abbrev pub AllAccept : List Ring → List DataContainer → Type 0
AllAccept [] [] = Unit {0}
AllAccept [] (d ∷ q) = ⊥
AllAccept (ring ∷ rings) [] = ⊥
AllAccept (ring ∷ rings) (d ∷ q) =
    (ring.is_open ≡ true) × ((n : ℕ) × Succeeds n ring.answers) × AllAccept rings q

-- Frames as the device has them: zeros up to 60 bytes, and none of more than 1500.
abbrev pub accepted : List (Option (List ℕ)) → List (List ℕ)
accepted [] = []
accepted (none ∷ frames) = accepted frames
accepted (some f ∷ frames) =
    if ltb 1500 (length f)
    then accepted frames
    else (f ++ replicate (60 - length f) 0) ∷ accepted frames

accepted-cons :
    (wire : List (List ℕ)) (f : List ℕ) (frames : List (Option (List ℕ)))
    → (if ltb 1500 (length f) then wire else wire ++ (f ++ replicate (60 - length f) 0) ∷ [])
        ++ accepted frames
      ≡ wire ++ accepted (some f ∷ frames)
accepted-cons wire f frames = elim (Bool-cases (ltb 1500 (length f))) [
  | inl long ↦ rw long refl
  | inr short ↦
      rw short (append_assoc wire ((f ++ replicate (60 - length f) 0) ∷ []) (accepted frames))
]

frame_size :
    (h : Heap) (d : DataContainer) (f : List ℕ)
    → IsLive h d
    → load h d.data_ d.length ≡ some f
    → length f ≡ d.length
frame_size h d f live e =
    let loaded = load-some h d live in
    let same : loaded.0 ≡ f = cc (loaded.1, e) in ap length (sym same) ∙ loaded.2

pub Sends-wire :
    {n : ℕ} {d : DataContainer} {q : List DataContainer} {net out : Net} {rc : Rc}
    → IsLive net.heap d
    → Sends n d q net out rc
    → (frames : List (Option (List ℕ)))
    → out.wire ++ accepted frames ≡ net.wire ++ accepted (load net.heap d.data_ d.length ∷ frames)
Sends-wire {d = d} {net = net} live s frames =
    let f = s.frame_bytes in
    let size = frame_size net.heap d f live s.read_from_buffer in
    ap (λ w. w ++ accepted frames) s.sent
    ∙ (ap
          (λ k.
            (if ltb 1500 k then net.wire else net.wire ++ (f ++ replicate (60 - k) 0) ∷ [])
            ++ accepted frames)
          (sym size)
        ∙ (accepted-cons net.wire f frames
            ∙ ap (λ x. net.wire ++ accepted (x ∷ frames)) (sym s.read_from_buffer)))

-- From a valid state, as many calls as there are queued frames, each with an open ring that accepts a
-- frame sooner or later, return: the queue is empty and the state valid, and behind what was on the wire
-- before are the queued frames of at most 1500 bytes, in order, each with zeros up to 60 bytes; the
-- longer ones are lost.
pub send_each-Empties :
    (rings : List Ring) (q : List DataContainer) (net : Net)
    → net.async_send_data ≡ q
    → AllAccept rings q
    → NetIsValid net
    → (out : Net) × (send_each rings net ≡ some out)
      × NetIsValid out
      × (out.async_send_data ≡ [])
      × (out.wire ≡ net.wire ++ accepted (queued net.heap q))
unfolding send_each
send_each-Empties [] [] net e a v = (net, refl, v, e, sym (append-nil net.wire))
send_each-Empties [] (d ∷ q) net e a v = absurd a
send_each-Empties (ring ∷ rings) [] net e a v = absurd a
send_each-Empties (ring ∷ rings) (d ∷ q) net e a v =
    let r = pfring_send-Sends ring a.1.0 net d q a.0 a.1.1 v e in
    let safe : AreSafe net.heap (d ∷ q) = subst (AreSafe net.heap) e v.queue_safe in
    let rest = send_each-Empties rings q r.0 r.3.next_in_queue a.2 r.3.still_valid in
    let same = kept_frames net.heap r.0.heap d q r.3.buffer_freed safe.1 in
    (
      rest.0,
      rw (r.2, send_each) rest.1,
      rest.2,
      rest.3,
      rest.4 ∙ (ap (λ l. r.0.wire ++ accepted l) same ∙ Sends-wire safe.0 r.3 (queued net.heap q)),
    )
