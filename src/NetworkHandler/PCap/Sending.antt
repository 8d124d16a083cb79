-- ===== src/NetworkHandler/PCap/Sending.antt =====
-- Sending what is queued (socket/PCapHandler.cpp).
use na62_farm_lib_networking.Base.{
  ℕ, ◌+◌, ◌≡◌, refl, List, [], ◌∷◌, ◌++◌, Option, none, some, Bool, ◌∙◌, ◌&&◌, arith, ◌==◌,
  if◌then◌else◌, length, u64, ap, sym,
}
use mathlib.Core.Path.{subst}
use na62_farm_lib_networking.Memory.{Heap, DataContainer, read}
use na62_farm_lib_networking.NetworkHandler.{Net, load, free_frame}
use na62_farm_lib_networking.NetworkHandler.Safety.{AreSafe, NetIsValid, free_frame-some, load-some}
use na62_farm_lib_networking.NetworkHandler.PCap.{
  do_send_queued_frames, do_send, give, send_and_free,
}

-- What one call does to a valid state whose queue starts with `d`.
pub record Sends (sent : Bool) (d : DataContainer) (q : List DataContainer) (net : Net) (out : Net)
    (returned : ℕ) : Type 0 where
  pub returns_length : returned ≡ d.length
  pub next_in_queue : out.async_send_data ≡ q
  pub frame_bytes : List ℕ
  pub read_from_buffer : load net.heap d.data_ d.length ≡ some frame_bytes
  pub on_wire : out.wire ≡ (if sent then net.wire ++ frame_bytes ∷ [] else net.wire)
  pub same_address : out.my_address ≡ net.my_address
  pub counted_twice : out.frames_sent ≡ u64 (net.frames_sent + 2)
  pub buffer_freed :
      (a : ℕ)
      → read out.heap a ≡ (if d.owner_may_free_data && a == d.data_ then none else read net.heap a)
  pub still_valid : NetIsValid out

-- The state in which the frame is given to the device, and the one after the call.
abbrev after_send : Bool → List DataContainer → List ℕ → Net → Net
after_send sent q frame net = record net {
  async_send_data = q;
  frames_sent = u64 (net.frames_sent + 1);
  wire = if sent then net.wire ++ frame ∷ [] else net.wire;
}

abbrev after_call : Bool → List DataContainer → List ℕ → Heap → Net → Net
after_call sent q frame h net = record net {
  async_send_data = q;
  frames_sent = u64 (u64 (net.frames_sent + 1) + 1);
  heap = h;
  wire = if sent then net.wire ++ frame ∷ [] else net.wire;
}

do_send_lem :
    (sent : Bool) (net : Net) (d : DataContainer) (q : List DataContainer) (frame : List ℕ)
    (h : Heap)
    → load net.heap d.data_ d.length ≡ some frame
    → free_frame d (after_send sent q frame net)
      ≡ some (record (after_send sent q frame net) { heap = h })
    → do_send sent (d ∷ q) net ≡ some (after_call sent q frame h net, length frame)
unfolding do_send give
do_send_lem sent net d q frame h e f =
    ap
      (λ r. elim r [
        | none ↦ none
        | some pkt ↦ send_and_free sent d pkt (record net { async_send_data = q })
      ])
      e
    ∙ rw (f, send_and_free) refl

-- With a valid state whose queue starts with `d`, a call returns: it takes `d` out, gives the device
-- the bytes of its buffer if `sendto` works, returns its length, adds two to the count of frames
-- sent, frees the buffer if and only if `d` says so, and leaves a valid state.
pub do_send_queued_frames-Sends :
    (sent : Bool) (net : Net) (d : DataContainer) (q : List DataContainer)
    → NetIsValid net
    → net.async_send_data ≡ d ∷ q
    → (out : Net) × (returned : ℕ) × (do_send_queued_frames sent net ≡ some (out, returned))
      × Sends sent d q net out returned
unfolding do_send_queued_frames
do_send_queued_frames-Sends sent net d q v e =
    let safe : AreSafe net.heap (d ∷ q) = subst (AreSafe net.heap) e v.queue_safe in
    let loaded = load-some net.heap d safe.0 in
    let freed = free_frame-some (after_send sent q loaded.0 net) d q v.heap_valid safe in
    (
      after_call sent q loaded.0 freed.0 net,
      length loaded.0,
      ap (λ l. do_send sent l net) e ∙ do_send_lem sent net d q loaded.0 freed.0 loaded.1 freed.1,
      record {
        returns_length = loaded.2;
        next_in_queue = refl;
        frame_bytes = loaded.0;
        read_from_buffer = loaded.1;
        on_wire = refl;
        same_address = refl;
        counted_twice = omega arith;
        buffer_freed = freed.4;
        still_valid = record { heap_valid = freed.2; queue_safe = freed.3; mac_size = v.mac_size };
      },
    )

-- With nothing queued a call changes nothing and returns 0.
pub do_send_queued_frames-empty :
    (sent : Bool) (net : Net)
    → net.async_send_data ≡ []
    → do_send_queued_frames sent net ≡ some (net, 0)
unfolding do_send_queued_frames
do_send_queued_frames-empty sent net e = rw (e, do_send_queued_frames) refl

returned_valid :
    (net out : Net) (n : ℕ) (r : Option (Net × ℕ))
    → r ≡ some (out, n)
    → (a : Net) × (k : ℕ) × (r ≡ some (a, k)) × NetIsValid a × (a.my_address ≡ net.my_address)
    → NetIsValid out × (out.my_address ≡ net.my_address)
returned_valid net out n r e (a, k, f, v, m) =
    let same : a ≡ out = cc in
    (subst NetIsValid same v, subst (λ x. x.my_address ≡ net.my_address) same m)

-- Whatever a call returns from a valid state is valid, and has the same addresses.
pub do_send_queued_frames-valid :
    (sent : Bool) (net out : Net) (n : ℕ)
    → NetIsValid net
    → do_send_queued_frames sent net ≡ some (out, n)
    → NetIsValid out × (out.my_address ≡ net.my_address)
do_send_queued_frames-valid sent net out n v e = go net.async_send_data refl
  where
    go :
        (l : List DataContainer)
        → net.async_send_data ≡ l
        → NetIsValid out × (out.my_address ≡ net.my_address)
    go [] q = returned_valid net out n _ e (net, 0, do_send_queued_frames-empty sent net q, v, refl)
    go (d ∷ q) w =
        let r = do_send_queued_frames-Sends sent net d q v w in
        returned_valid net out n _ e (r.0, r.1, r.2, r.3.still_valid, r.3.same_address)

-- A call returns from every valid state.
pub do_send_queued_frames-some :
    (sent : Bool) (net : Net)
    → NetIsValid net
    → (out : Net) × (n : ℕ) × (do_send_queued_frames sent net ≡ some (out, n))
do_send_queued_frames-some sent net v = go net.async_send_data refl
  where
    go :
        (l : List DataContainer)
        → net.async_send_data ≡ l
        → (out : Net) × (n : ℕ) × (do_send_queued_frames sent net ≡ some (out, n))
    go [] q = (net, 0, do_send_queued_frames-empty sent net q)
    go (d ∷ q) w = let r = do_send_queued_frames-Sends sent net d q v w in (r.0, r.1, r.2)

-- A `try_pop` and what follows it are a whole call.
pub do_send_queued_frames-give :
    (sent : Bool) (d : DataContainer) (net out : Net) (bytes : ℕ)
    → give sent d net ≡ some (out, bytes)
    → do_send_queued_frames sent (record net { async_send_data = d ∷ net.async_send_data })
      ≡ some (out, bytes)
unfolding do_send_queued_frames do_send
do_send_queued_frames-give sent d net out bytes e = e

pub do_send_queued_frames-taken :
    (sent : Bool) (d : DataContainer) (q : List DataContainer) (net out : Net) (bytes : ℕ)
    → net.async_send_data ≡ d ∷ q
    → do_send_queued_frames sent net ≡ some (out, bytes)
    → give sent d (record net { async_send_data = q }) ≡ some (out, bytes)
unfolding do_send_queued_frames do_send
do_send_queued_frames-taken sent d q net out bytes w e = sym (ap (λ l. do_send sent l net) w) ∙ e
