-- ===== src/L1Distribution/Sending/Received.antt =====
-- What a receiver reads from the frames of `Async_SendMRP` (l1/L1DistributionHandler.cpp).
use mathlib.Core.Path.{subst}
use na62_farm_lib_networking.Base.{
  ◌*◌, ◌≤◌, ◌≡◌, ◌∙◌, refl, ap, sym, List, [], ◌∷◌, map, some, arith, length, ◌>>=◌,
}
use na62_farm_lib_networking.Ethernet.Checksum.{Checksums}
use na62_farm_lib_networking.Mrp.{TriggerRawHdr, MrpFrameHdr, payload}
use na62_farm_lib_networking.Mrp.Receiver.{read_frame, event_of, read_frame-payload}
use na62_farm_lib_networking.L1Distribution.Sending.{make_frame}
use na62_farm_lib_networking.L1Distribution.Sending.Frame.{HasMacs, make_frame_header}

pub length-payload : (ts : List TriggerRawHdr) → length (payload ts) ≡ 12 * length ts
length-payload [] = refl
length-payload (t ∷ ts) = omega (arith, length-payload ts)

-- From a frame that is made for a header with MAC addresses and the bytes of at most 5457 triggers, a
-- receiver reads those triggers, all of them and in the order of the frame, whatever the checksums are.
pub read_frame-make_frame :
    (c : Checksums) (h : MrpFrameHdr) (ts : List TriggerRawHdr)
    → HasMacs h
    → length ts ≤ 5457
    → (make_frame c (length ts) (payload ts) h >>= read_frame) ≡ some (map event_of ts)
read_frame-make_frame c h ts m small =
    let f = make_frame_header c (length ts) (payload ts) h small (length-payload ts) in
    ap (λ r. r >>= read_frame) f.1
    ∙ read_frame-payload f.0 ts (subst (λ e. length e.ether_dhost ≡ 6) (sym f.2) m.dhost)
        (subst (λ e. length e.ether_shost ≡ 6) (sym f.2) m.shost) f.3 f.4
