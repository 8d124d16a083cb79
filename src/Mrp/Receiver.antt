-- ===== src/Mrp/Receiver.antt =====
-- What a read-out board that receives an MRP frame reads from it (l1/MRP.h): an independent reader of the
-- bytes behind the Ethernet, IP and UDP headers, in network order.
use mathlib.Core.List.{append_assoc}
use na62_farm_lib_networking.Base.{
  ℕ, zero, suc, ◌+◌, ◌*◌, ◌%◌, ◌/◌, ◌≡◌, ◌∙◌, refl, ap, List, [], ◌∷◌, ◌++◌, map, Option, none,
  some, arith, ◌>>=◌, ◌==◌, ltb, if◌then◌else◌, length, take, drop, drop-append,
}
use na62_farm_lib_networking.Network.{eth_alen, udp_hdr_bytes}
use na62_farm_lib_networking.Network.Layout.{length-udp_hdr_bytes}
use na62_farm_lib_networking.Mrp.{
  TriggerRawHdr, MrpRawHdr, MrpFrameHdr, Event, trigger_raw_hdr_bytes, mrp_raw_hdr_bytes,
  mrp_frame_hdr_bytes, get_number_of_triggers, get_size, payload,
}
use na62_farm_lib_networking.Mrp.Wire.{read_event}

-- Exactly `n` elements of 12 bytes.
pub read_events : ℕ → List ℕ → Option (List Event)
read_events zero [] = some []
read_events zero (b ∷ bytes) = none
read_events (suc n) bytes =
    let rest = read_events n (drop 12 bytes) in
    if ltb (length bytes) 12
    then none
    else rest >>= λ events. some (read_event (take 12 bytes) ∷ events)

-- The number of triggers, the length, which must fit it, an address and a reserved word, and the elements.
pub read_mrp : List ℕ → Option (List Event)
unfolding read_events
read_mrp (n1 ∷ n0 ∷ l1 ∷ l0 ∷ a3 ∷ a2 ∷ a1 ∷ a0 ∷ r3 ∷ r2 ∷ r1 ∷ r0 ∷ elements) =
    let n = n1 * 256 + n0 in if l1 * 256 + l0 == 12 + 12 * n then read_events n elements else none
read_mrp other = none

unfoldable pub read_frame : List ℕ → Option (List Event)
unfolding read_mrp
read_frame frame = read_mrp (drop 42 frame)

-- What one element says.
abbrev pub event_of : TriggerRawHdr → Event
event_of t = read_event (trigger_raw_hdr_bytes t)

read_events-payload :
    (ts : List TriggerRawHdr) → read_events (length ts) (payload ts) ≡ some (map event_of ts)
unfolding read_events
read_events-payload [] = refl
read_events-payload (t ∷ ts) = ground (arith, read_events-payload ts)

read_mrp-payload :
    (h : MrpRawHdr) (ts : List TriggerRawHdr)
    → get_number_of_triggers h ≡ length ts
    → get_size h ≡ 12 + 12 * length ts
    → read_mrp (mrp_raw_hdr_bytes h ++ payload ts) ≡ some (map event_of ts)
unfolding read_mrp get_number_of_triggers get_size
read_mrp-payload h ts n s =
    let count : h.number_of_triggers % 256 * 256 + h.number_of_triggers / 256 % 256 ≡ length ts =
      n in
    let size : h.mrp_length % 256 * 256 + h.mrp_length / 256 % 256 ≡ 12 + 12 * length ts = s in
    rw (count, size) (ground (arith, read_events-payload ts))

pub read_frame-payload :
    (h : MrpFrameHdr) (ts : List TriggerRawHdr)
    → length h.udp.eth.ether_dhost ≡ eth_alen
    → length h.udp.eth.ether_shost ≡ eth_alen
    → get_number_of_triggers h.mrp_hdr ≡ length ts
    → get_size h.mrp_hdr ≡ 12 + 12 * length ts
    → read_frame (mrp_frame_hdr_bytes h ++ payload ts) ≡ some (map event_of ts)
unfolding read_frame
read_frame-payload h ts d s n size =
    ap read_mrp (
      ap (drop 42) (append_assoc (udp_hdr_bytes h.udp) (mrp_raw_hdr_bytes h.mrp_hdr) (payload ts))
      ∙ drop-append 42 (udp_hdr_bytes h.udp) (mrp_raw_hdr_bytes h.mrp_hdr ++ payload ts)
          (length-udp_hdr_bytes h.udp d s))
    ∙ read_mrp-payload h.mrp_hdr ts n size
