-- ===== src/NetworkHandler/PCap/Senders/Kept.antt =====
-- What overlapping calls of DoSendQueuedFrames keep (socket/PCapHandler.cpp).
use mathlib.Core.List.{Perm, perm_middle, append_assoc, append-nil}
use mathlib.Core.List.Perm
use mathlib.Core.Option
use mathlib.Core.Path.{subst}
use na62_farm_lib_networking.Base.{
  ℕ, ◌≤◌, ◌≡◌, ◌∙◌, refl, sym, ap, List, [], ◌∷◌, ◌++◌, map, Option, none, some, Bool, true, length,
  take, arith,
}
use na62_farm_lib_networking.Memory.{Heap, DataContainer, new_array, delete_array}
use na62_farm_lib_networking.NetworkHandler.{Net, async_send_frame, load}
use na62_farm_lib_networking.NetworkHandler.Safety.{
  IsApart, IsApart-sym, AllApart, AreSafe, NetIsValid, async_send_frame-NetIsValid,
}
use na62_farm_lib_networking.NetworkHandler.Queued.{frame_of, queued-async_send_frame}
use na62_farm_lib_networking.NetworkHandler.Outbox.{
  all_frames, outbox, outbox-do_send_queued_frames, perform-takes,
}
use na62_farm_lib_networking.NetworkHandler.PCap.{give, send_and_free, send_frame_concurrently}
use na62_farm_lib_networking.NetworkHandler.PCap.Sending.{
  do_send_queued_frames-give, do_send_queued_frames-valid,
}
use na62_farm_lib_networking.NetworkHandler.PCap.Senders.{
  Senders, with_data, Step, queues, pops, gives, Reach, here, next, step_queued, frames_queued,
  whole, frames_in,
}

AllApart-middle :
    (e d : DataContainer) (xs ys : List DataContainer)
    → AllApart e (xs ++ d ∷ ys)
    → IsApart e d × AllApart e (xs ++ ys)
AllApart-middle e d [] ys a = a
AllApart-middle e d (x ∷ xs) ys a = let r = AllApart-middle e d xs ys a.1 in (r.0, (a.0, r.1))

-- A frame in the middle of a safe queue can as well stand at its head.
AreSafe-middle :
    (h : Heap) (d : DataContainer) (xs ys : List DataContainer)
    → AreSafe h (xs ++ d ∷ ys)
    → AreSafe h (d ∷ xs ++ ys)
AreSafe-middle h d [] ys s = s
AreSafe-middle h d (x ∷ xs) ys s =
    let r = AreSafe-middle h d xs ys s.2 in
    let m = AllApart-middle x d xs ys s.1 in (r.0, (IsApart-sym x d m.0, r.1), (s.0, m.1, r.2))

NetIsValid-middle :
    (net : Net) (d : DataContainer) (xs ys : List DataContainer)
    → NetIsValid (with_data net (xs ++ d ∷ ys))
    → NetIsValid (with_data net (d ∷ xs ++ ys))
NetIsValid-middle net d xs ys v = record {
  heap_valid = v.heap_valid;
  queue_safe = AreSafe-middle net.heap d xs ys v.queue_safe;
  mac_size = v.mac_size;
}

-- The rest of a call does not look at the queue, and leaves it.
give-with_data :
    (sent : Bool) (d : DataContainer) (net : Net) (q : List DataContainer)
    → give sent d (with_data net q) ≡ Option.map (λ r. (with_data r.0 q, r.1)) (give sent d net)
unfolding give send_and_free send_frame_concurrently delete_array
give-with_data sent d net q = go (load net.heap d.data_ d.length)
  where
    go :
        (r : Option (List ℕ))
        → (elim r [ none ↦ none | some pkt ↦ send_and_free sent d pkt (with_data net q) ])
          ≡ Option.map
              (λ r. (with_data r.0 q, r.1))
              (elim r [ none ↦ none | some pkt ↦ send_and_free sent d pkt net ])
    go none = refl
    go (some pkt) = ground arith

given_some :
    (sent : Bool) (d : DataContainer) (net out : Net) (bytes : ℕ) (q : List DataContainer)
    → give sent d net ≡ some (out, bytes)
    → give sent d (with_data net q) ≡ some (with_data out q, bytes)
given_some sent d net out bytes q e =
    give-with_data sent d net q ∙ ap (Option.map (λ r. (with_data r.0 q, r.1))) e

same_queue :
    (sent : Bool) (d : DataContainer) (net out : Net) (bytes : ℕ)
    → give sent d net ≡ some (out, bytes)
    → out.async_send_data ≡ net.async_send_data
same_queue sent d net out bytes e =
    let kept = given_some sent d net out bytes net.async_send_data e in
    let same : with_data out net.async_send_data ≡ out = cc in
    ap (λ n. n.async_send_data) (sym same)

-- A step that queues these frames.
record Keeps (fs : List (Option (List ℕ))) (y z : Senders) : Type 0 where
  valid : NetIsValid (whole z)
  same_frames : Perm (frames_in z) (frames_in y ++ fs)

equal_Perm : (l m : List (Option (List ℕ))) → l ≡ m → Perm l m
equal_Perm l m e = subst (Perm l) e (Perm.refl l)

queues-Keeps :
    (y : Senders) (bytes : List ℕ) (d : DataContainer)
    → d.data_ ≡ (new_array bytes y.net.heap).0
    → d.length ≤ length bytes
    → NetIsValid (whole y)
    → Keeps (some (take d.length bytes) ∷ []) y (record y {
      net = async_send_frame d (record y.net { heap = (new_array bytes y.net.heap).1 });
    })
unfolding async_send_frame
queues-Keeps y bytes d e f v =
    let after = async_send_frame d (record (whole y) { heap = (new_array bytes y.net.heap).1 }) in
    let moved = sym (append_assoc y.held y.net.async_send_data (d ∷ [])) in
    record {
      valid =
          subst (λ q. NetIsValid (with_data after q)) (sym moved)
            (async_send_frame-NetIsValid (whole y) bytes d v e f);
      same_frames = equal_Perm _ _ (
          ap (λ q. all_frames (outbox (with_data after q))) moved
          ∙ (ap (◌++◌ (map some y.net.wire)) (queued-async_send_frame (whole y) bytes d v e f)
              ∙ sym (append_assoc (map some y.net.wire) _ (some (take d.length bytes) ∷ []))));
    }

pops-Keeps :
    (y : Senders) (d : DataContainer) (q : List DataContainer)
    → y.net.async_send_data ≡ d ∷ q
    → NetIsValid (whole y)
    → Keeps [] y (record { net = with_data y.net q; held = y.held ++ d ∷ [] })
pops-Keeps y d q e v =
    let same : y.held ++ y.net.async_send_data ≡ (y.held ++ d ∷ []) ++ q =
      ap (◌++◌ y.held) e ∙ sym (append_assoc y.held (d ∷ []) q) in
    record {
      valid = subst (λ l. NetIsValid (with_data y.net l)) same v;
      same_frames =
          equal_Perm _ _
            (ap (λ l. all_frames (outbox (with_data y.net l))) (sym same) ∙ sym (append-nil _));
    }

gives-Keeps :
    (y : Senders) (earlier later : List DataContainer) (d : DataContainer) (net : Net) (bytes : ℕ)
    → y.held ≡ earlier ++ d ∷ later
    → give true d y.net ≡ some (net, bytes)
    → NetIsValid (whole y)
    → Keeps [] y (record { net = net; held = earlier ++ later })
gives-Keeps y earlier later d net bytes e f v =
    let q = y.net.async_send_data in
    let rest = earlier ++ (later ++ q) in
    let before : y.held ++ q ≡ earlier ++ (d ∷ (later ++ q)) =
      ap (λ l. l ++ q) e ∙ append_assoc earlier (d ∷ later) q in
    let after : (earlier ++ later) ++ net.async_send_data ≡ rest =
      ap (◌++◌ (earlier ++ later)) (same_queue true d y.net net bytes f)
      ∙ append_assoc earlier later q in
    let v' =
      NetIsValid-middle y.net d earlier (later ++ q)
        (subst (λ l. NetIsValid (with_data y.net l)) before v) in
    let call =
      do_send_queued_frames-give true d (with_data y.net rest) (with_data net rest) bytes
        (given_some true d y.net net bytes rest f) in
    let sent =
      ap all_frames (
        outbox-do_send_queued_frames true (with_data y.net (d ∷ rest)) (with_data net rest) bytes v'
          call)
      ∙ perform-takes (outbox (with_data y.net (d ∷ rest))) in
    record {
      valid =
          subst (λ l. NetIsValid (with_data net l)) (sym after)
            (do_send_queued_frames-valid true (with_data y.net (d ∷ rest)) (with_data net rest)
              bytes v' call).0;
      same_frames =
          Perm.trans (equal_Perm _ _ (ap (λ l. all_frames (outbox (with_data net l))) after ∙ sent))
            (Perm.trans
              (Perm.append_left (map some y.net.wire)
                (Perm.symm (Perm.map (frame_of y.net.heap) (perm_middle earlier (later ++ q)))))
              (equal_Perm _ _ (
                ap (λ l. all_frames (outbox (with_data y.net l))) (sym before)
                ∙ sym (append-nil _))));
    }

Step-Keeps : {y z : Senders} (s : Step y z) → NetIsValid (whole y) → Keeps (step_queued s) y z
unfolding step_queued
Step-Keeps {y} (queues bytes d e f) v = queues-Keeps y bytes d e f v
Step-Keeps {y} (pops d q e) v = pops-Keeps y d q e v
Step-Keeps {y} (gives earlier later d net bytes e f) v =
    gives-Keeps y earlier later d net bytes e f v

-- Take any run of any number of senders, each of which takes a frame out of the queue and later gives it to
-- the device, beside threads that queue frames in new buffers, in whatever order they take these steps, from a
-- state in which what is held and what waits can be read and freed safely, and in which `sendto` always
-- works. What is held and what waits can still be read and freed safely; and the frames that the device was
-- given, that senders hold and that wait are those from before and those that the run queued, each as often as
-- there, in some order: none is lost, sent twice or changed.
pub Reach-keeps :
    {y z : Senders} (r : Reach y z)
    → NetIsValid (whole y)
    → NetIsValid (whole z) × Perm (frames_in z) (frames_in y ++ frames_queued r)
unfolding frames_queued
Reach-keeps {y} here v = (v, equal_Perm _ _ (sym (append-nil (frames_in y))))
Reach-keeps {y} (next r s) v =
    let ih = Reach-keeps r v in
    let k = Step-Keeps s ih.0 in
    (
      k.valid,
      Perm.trans k.same_frames (
          Perm.trans (Perm.append_right (step_queued s) ih.1)
            (equal_Perm _ _ (append_assoc (frames_in y) (frames_queued r) (step_queued s)))),
    )
