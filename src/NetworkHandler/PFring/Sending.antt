-- ===== src/NetworkHandler/PFring/Sending.antt =====
-- Sending what is queued over PF_RING (socket/PFringHandler.cpp, socket/PFring.cpp).
use mathlib.Core.Path.{subst}
use mathlib.Core.List.{append-nil}
use na62_farm_lib_networking.Base.{
  ℕ, ◌+◌, ◌-◌, ◌<◌, ◌≡◌, ◌∙◌, ap, refl, List, [], ◌∷◌, ◌++◌, none, some, Bool, true, false, ◌&&◌,
  arith, ltb, ◌==◌, if◌then◌else◌, length, Bool-cases, inl, inr, sym, length-append,
  length-replicate, replicate, u64,
}
use na62_farm_lib_networking.Memory.{Heap, DataContainer, read}
use na62_farm_lib_networking.NetworkHandler.{Net, load, free_frame}
use na62_farm_lib_networking.NetworkHandler.Safety.{AreSafe, NetIsValid, free_frame-some, load-some}
use na62_farm_lib_networking.NetworkHandler.PFring.{
  Rc, failed, bytes, Ring, send_loop, send_packet, padded, on_wire, send_frame_concurrently,
  free_sent, do_send, do_send_queued_frames,
}

-- The ring's answers hold a success, the first of which is `n`.
pub data Succeeds (n : ℕ) : List Rc → Type 0 where
  now : {answers : List Rc} → Succeeds n (bytes n ∷ answers)
  later : {answers : List Rc} → Succeeds n answers → Succeeds n (failed ∷ answers)

-- The loop ends with the first success.
send_loop-Succeeds :
    {n : ℕ} {answers : List Rc} → Succeeds n answers → send_loop answers ≡ some (bytes n)
unfolding send_loop
send_loop-Succeeds now = refl
send_loop-Succeeds (later s) = send_loop-Succeeds s

-- What one call does to a valid state whose queue starts with `d`.
pub record Sends (n : ℕ) (d : DataContainer) (q : List DataContainer) (net : Net) (out : Net)
    (returned : Rc) : Type 0 where
  pub frame_bytes : List ℕ
  pub read_from_buffer : load net.heap d.data_ d.length ≡ some frame_bytes
  pub returns : returned ≡ (if ltb 1500 d.length then failed else bytes n)
  pub sent : out.wire ≡ (
      if ltb 1500 d.length
      then net.wire
      else net.wire ++ (frame_bytes ++ replicate (60 - d.length) 0) ∷ [])
  pub next_in_queue : out.async_send_data ≡ q
  pub same_address : out.my_address ≡ net.my_address
  pub counted : out.frames_sent ≡ u64 (net.frames_sent + 1)
  pub buffer_freed :
      (a : ℕ)
      → read out.heap a ≡ (if d.owner_may_free_data && a == d.data_ then none else read net.heap a)
  pub still_valid : NetIsValid out

padded_lem :
    (pkt : List ℕ)
    → (padded pkt ≡ pkt ++ replicate (60 - length pkt) 0)
      × (ltb 1500 (length (padded pkt)) ≡ ltb 1500 (length pkt))
padded_lem pkt = elim (Bool-cases (ltb (length pkt) 60)) [
  | inl short ↦ (
    rw short refl,
    rw short (
        let le : length pkt < 60 = ground arith in
        ground (
          arith,
          length-append {0} pkt (replicate (60 - length pkt) 0),
          length-replicate {A = ℕ} (60 - length pkt) 0,
        )),
  )
  | inr long ↦
      let none_missing : 60 - length pkt ≡ 0 = ground arith in
      (rw long (rw none_missing (sym (append-nil pkt))), rw long refl)
]

some-if : (b : Bool) (x y : Rc) → (if b then some x else some y) ≡ some (if b then x else y)
some-if true x y = refl
some-if false x y = refl

on_wire-if :
    (b : Bool) (n : ℕ) (pkt : List ℕ) (wire : List (List ℕ))
    → on_wire (if b then failed else bytes n) pkt wire ≡ (if b then wire else wire ++ pkt ∷ [])
unfolding on_wire
on_wire-if true n pkt wire = refl
on_wire-if false n pkt wire = refl

send_packet_lem :
    {n : ℕ} (ring : Ring) (pkt : List ℕ)
    → ring.is_open ≡ true
    → Succeeds n ring.answers
    → send_packet ring pkt ≡ some (if ltb 1500 (length pkt) then failed else bytes n)
unfolding send_packet
send_packet_lem {n} ring pkt is_open s =
    rw (is_open, send_loop-Succeeds s) (some-if (ltb 1500 (length pkt)) failed (bytes n))

-- The state in which the frame is given to the ring, and the one after the call.
abbrev after_send : Rc → List DataContainer → List ℕ → Net → Net
after_send rc q frame net = record net {
  async_send_data = q;
  frames_sent = u64 (net.frames_sent + 1);
  wire = on_wire rc (padded frame) net.wire;
}

do_send_lem :
    (ring : Ring) (net : Net) (d : DataContainer) (q : List DataContainer) (frame : List ℕ)
    (h : Heap) (rc : Rc)
    → load net.heap d.data_ d.length ≡ some frame
    → send_packet ring (padded frame) ≡ some rc
    → free_frame d (after_send rc q frame net)
      ≡ some (record (after_send rc q frame net) { heap = h })
    → do_send ring (d ∷ q) net ≡ some (record (after_send rc q frame net) { heap = h }, rc)
unfolding do_send send_frame_concurrently free_sent
do_send_lem ring net d q frame h rc e s f =
    rw (e, do_send) (rw (s, send_frame_concurrently) (rw (f, free_sent) refl))

-- With a valid state whose queue starts with `d`, and an open ring that accepts a frame sooner or later,
-- a call returns: it takes `d` out, counts one frame, frees the buffer if and only if `d` says so, and
-- leaves a valid state. A frame of at most 1500 bytes is on the wire, with zeros up to 60 bytes; a longer
-- one is lost, and the call returns a failure.
pub pfring_send-Sends :
    (ring : Ring) (n : ℕ) (net : Net) (d : DataContainer) (q : List DataContainer)
    → ring.is_open ≡ true
    → Succeeds n ring.answers
    → NetIsValid net
    → net.async_send_data ≡ d ∷ q
    → (out : Net) × (returned : Rc) × (do_send_queued_frames ring net ≡ some (out, returned))
      × Sends n d q net out returned
unfolding do_send_queued_frames
pfring_send-Sends ring n net d q is_open s v e =
    let safe : AreSafe net.heap (d ∷ q) = subst (AreSafe net.heap) e v.queue_safe in
    let loaded = load-some net.heap d safe.0 in
    let frame : List ℕ = loaded.0 in
    let rc : Rc = if ltb 1500 d.length then failed else bytes n in
    let pad = padded_lem frame in
    let same : ltb 1500 (length (padded frame)) ≡ ltb 1500 d.length =
      pad.1 ∙ ap (ltb 1500) loaded.2 in
    let sent : send_packet ring (padded frame) ≡ some rc =
      send_packet_lem ring (padded frame) is_open s
      ∙ ap (λ b. some (if b then failed else bytes n)) same in
    let freed = free_frame-some (after_send rc q frame net) d q v.heap_valid safe in
    (
      record (after_send rc q frame net) { heap = freed.0 },
      rc,
      ap (λ l. do_send ring l net) e
          ∙ do_send_lem ring net d q frame freed.0 rc loaded.1 sent freed.1,
      record {
        frame_bytes = frame;
        read_from_buffer = loaded.1;
        returns = refl;
        sent =
            on_wire-if (ltb 1500 d.length) n (padded frame) net.wire
            ∙ ap (λ p. if ltb 1500 d.length then net.wire else net.wire ++ p ∷ [])
                (pad.0 ∙ ap (λ k. frame ++ replicate (60 - k) 0) loaded.2);
        next_in_queue = refl;
        same_address = refl;
        counted = refl;
        buffer_freed = freed.4;
        still_valid = record { heap_valid = freed.2; queue_safe = freed.3; mac_size = v.mac_size };
      },
    )
