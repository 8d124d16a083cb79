-- ===== src/L1Distribution/Sending/Batch.antt =====
-- What one call of `Async_SendMRP` takes, sends and leaves (l1/L1DistributionHandler.cpp).
use mathlib.Core.List.{append-nil, append_assoc, map-append}
use na62_farm_lib_networking.Base.{
  ℕ, zero, suc, ◌+◌, ◌*◌, ◌≤◌, ◌<◌, ◌^◌, ◌≡◌, ◌∙◌, refl, ap, sym, List, [], ◌∷◌, ◌++◌, map, Option,
  some, true, arith, length, length-take, take, take_all, drop, u64,
}
use na62_farm_lib_networking.Memory.{new_array, DataContainer}
use na62_farm_lib_networking.Ethernet.Checksum.{Checksums}
use na62_farm_lib_networking.Mrp.{TriggerRawHdr, MrpFrameHdr, payload, trigger_raw_hdr_bytes}
use na62_farm_lib_networking.NetworkHandler.{Net, async_send_frame}
use na62_farm_lib_networking.NetworkHandler.Safety.{NetIsValid, async_send_frame-NetIsValid}
use na62_farm_lib_networking.NetworkHandler.Queued.{queued, queued-async_send_frame}
use na62_farm_lib_networking.L1Distribution.{L1DistributionHandler}
use na62_farm_lib_networking.L1Distribution.Sending.{
  Packed, pack, size_of_mrp, make_frame, send_frames, async_send_mrp,
}
use na62_farm_lib_networking.L1Distribution.Sending.Received.{length-payload}
use na62_farm_lib_networking.L1Distribution.Sending.Frame.{HasMacs, make_frame-some}

abbrev packed : ℕ → ℕ → ℕ → List ℕ → List TriggerRawHdr → Packed
packed room number offset contents ts = record {
  triggers = drop room ts;
  number_of_triggers = number + length (take room ts);
  offset = offset + 12 * length (take room ts);
  contents = contents ++ payload (take room ts);
}

-- With room for `room` more triggers the loop takes as many, and stays in its buffer.
pack_lem :
    (max size room number offset : ℕ) (contents : List ℕ) (ts : List TriggerRawHdr)
    → number + room ≡ max
    → offset + 12 * length (take room ts) ≤ size
    → pack max size number offset contents ts ≡ some (packed room number offset contents ts)
unfolding pack
pack_lem max size zero number offset contents [] e fits = ground (arith, append-nil contents)
pack_lem max size zero number offset contents (t ∷ ts) e fits = ground (arith, append-nil contents)
pack_lem max size (suc room) number offset contents [] e fits = ground (arith, append-nil contents)
pack_lem max size (suc room) number offset contents (t ∷ ts) e fits = ground (
  arith,
  pack_lem max size room (number + 1) (offset + 12) (contents ++ trigger_raw_hdr_bytes t) ts
      (omega arith) (omega arith),
  append_assoc contents (trigger_raw_hdr_bytes t) (payload (take room ts)),
)

-- The whole loop, from an empty buffer.
abbrev batch : ℕ → List TriggerRawHdr → Packed
batch max ts = record {
  triggers = drop max ts;
  number_of_triggers = length (take max ts);
  offset = 54 + 12 * length (take max ts);
  contents = payload (take max ts);
}

pack_all :
    (max : ℕ) (ts : List TriggerRawHdr)
    → 54 + 12 * length (take max ts) < 2 ^ 32
    → pack max (size_of_mrp max ts) 0 54 [] ts ≡ some (batch max ts)
unfolding size_of_mrp
pack_all max ts small =
    pack_lem max (size_of_mrp max ts) max 0 54 [] ts (omega arith)
      (ground (arith, length-take max ts))
    ∙ ap some (ground arith)

abbrev pub AllHaveMacs : List MrpFrameHdr → Type 0
AllHaveMacs [] = Unit
AllHaveMacs (h ∷ hs) = HasMacs h × AllHaveMacs hs

-- The network state after some frames were queued: it is valid, the frames stand behind those that
-- waited before, and nothing was sent.
pub record Queues (frames : List (Option (List ℕ))) (net net' : Net) : Type 0 where
  pub valid : NetIsValid net'
  pub behind : queued net'.heap net'.async_send_data ≡ queued net.heap net.async_send_data ++ frames
  pub wire : net'.wire ≡ net.wire
  pub frames_sent : net'.frames_sent ≡ net.frames_sent

Queues-trans :
    (fs gs : List (Option (List ℕ))) (a b c : Net)
    → Queues fs a b
    → Queues gs b c
    → Queues (fs ++ gs) a c
Queues-trans fs gs a b c p q = record {
  valid = q.valid;
  behind =
      q.behind
      ∙ (ap (λ l. l ++ gs) p.behind ∙ append_assoc (queued a.heap a.async_send_data) fs gs);
  wire = q.wire ∙ p.wire;
  frames_sent = q.frames_sent ∙ p.frames_sent;
}

queue_frame :
    (net : Net) (frame : List ℕ) (d : DataContainer)
    → NetIsValid net
    → d.data_ ≡ (new_array frame net.heap).0
    → d.length ≡ length frame
    → Queues
        (some frame ∷ [])
        net
        (async_send_frame d (record net { heap = (new_array frame net.heap).1 }))
unfolding async_send_frame
queue_frame net frame d v fresh whole = record {
  valid = async_send_frame-NetIsValid net frame d v fresh (omega arith);
  behind =
      queued-async_send_frame net frame d v fresh (omega arith)
      ∙ ap (λ b. queued net.heap net.async_send_data ++ some b ∷ [])
          (take_all d.length frame (omega arith));
  wire = refl;
  frames_sent = refl;
}

module _ (c : Checksums) (p : Packed) (whole : length p.contents ≡ 12 * p.number_of_triggers)
    (at_end : p.offset ≡ 54 + 12 * p.number_of_triggers) where
  send_frames-Queues :
      (hdrs : List MrpFrameHdr) (net : Net)
      → AllHaveMacs hdrs
      → NetIsValid net
      → (net' : Net) × (send_frames c p hdrs net ≡ some net')
        × Queues (map (make_frame c p.number_of_triggers p.contents) hdrs) net net'
  unfolding send_frames
  send_frames-Queues [] net m v = (
    net,
    refl,
    record { valid = v; behind = sym (append-nil _); wire = refl; frames_sent = refl },
  )
  send_frames-Queues (h ∷ hs) net m v =
      let f = make_frame-some c p.number_of_triggers p.contents h m.0 whole in
      let d : DataContainer = record {
        data_ = (new_array f.0 net.heap).0;
        length = p.offset;
        owner_may_free_data = true;
      } in
      let first = queue_frame net f.0 d v refl (omega (arith, f.2)) in
      let rest = send_frames-Queues hs _ m.1 first.valid in
      (rest.0, rw (f.1, send_frames) rest.1, rw f.1 (Queues-trans _ _ net _ rest.0 first rest.2))

async_send_mrp_lem :
    (c : Checksums) (l1 : L1DistributionHandler) (ts : List TriggerRawHdr) (p : Packed)
    (net a b : Net)
    → pack l1.max_triggers_per_l1mrp (size_of_mrp l1.max_triggers_per_l1mrp ts) 0 54 [] ts ≡ some p
    → send_frames c p l1.l1_unicast_request_hdrs net ≡ some a
    → send_frames c p l1.l1_multicast_request_hdrs a ≡ some b
    → async_send_mrp c ts l1 net
      ≡ some (
        p.triggers,
        record l1 {
          l1_triggers_sent = u64 (l1.l1_triggers_sent + p.number_of_triggers);
          l1_mrps_sent = u64 (l1.l1_mrps_sent + 1);
        },
        b,
      )
unfolding async_send_mrp
async_send_mrp_lem c l1 ts p net a b e f g = rw (e, async_send_mrp) (rw f (rw g refl))

-- One call takes the last triggers of the vector, as many as an MRP may have, and leaves the others there.
-- With headers that have MAC addresses, a valid network state and a batch whose buffer size fits 32
-- bits it returns: no access is out of range, the network state stays valid, and it queues one frame
-- for each unicast header and then each multicast header, made from that header and the bytes of
-- the triggers taken, behind those that wait. The counters grow by the triggers taken and by one.
pub async_send_mrp-Queues :
    (c : Checksums) (l1 : L1DistributionHandler) (net : Net) (triggers : List TriggerRawHdr)
    → AllHaveMacs l1.l1_unicast_request_hdrs
    → AllHaveMacs l1.l1_multicast_request_hdrs
    → NetIsValid net
    → 54 + 12 * length (take l1.max_triggers_per_l1mrp triggers) < 2 ^ 32
    → let taken = take l1.max_triggers_per_l1mrp triggers in
      (net' : Net) × (async_send_mrp c triggers l1 net
        ≡ some (
          drop l1.max_triggers_per_l1mrp triggers,
          record l1 {
            l1_triggers_sent = u64 (l1.l1_triggers_sent + length taken);
            l1_mrps_sent = u64 (l1.l1_mrps_sent + 1);
          },
          net',
        ))
      × Queues
          (map
            (make_frame c (length taken) (payload taken))
            (l1.l1_unicast_request_hdrs ++ l1.l1_multicast_request_hdrs))
          net
          net'
async_send_mrp-Queues c l1 net triggers mu mm v small =
    let max = l1.max_triggers_per_l1mrp in
    let p = batch max triggers in
    let whole = length-payload (take max triggers) in
    let uni = send_frames-Queues c p whole refl l1.l1_unicast_request_hdrs net mu v in
    let multi =
      send_frames-Queues c p whole refl l1.l1_multicast_request_hdrs uni.0 mm uni.2.valid in
    (
      multi.0,
      async_send_mrp_lem c l1 triggers p net uni.0 multi.0 (pack_all max triggers small) uni.1
          multi.1,
      rw
          (map-append (make_frame c p.number_of_triggers p.contents) l1.l1_unicast_request_hdrs
            l1.l1_multicast_request_hdrs)
          (Queues-trans _ _ net uni.0 multi.0 uni.2 multi.2),
    )
