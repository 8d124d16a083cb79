-- ===== src/Mrp/Packed.antt =====
-- The packed structs that go over the wire, and their bytes (l1/MRP.h, structs/Network.h).
use mathlib.Core.Equiv.{IsEquiv}
use na62_farm_lib_networking.Base.{ℕ, ◌^◌, ◌<◌, List, refl}
use na62_farm_lib_networking.Base.Layout.{
  HasBytes, IsLayout, then-IsLayout, struct-IsLayout, packed, packed-IsEquiv,
}
use na62_farm_lib_networking.Network.{ArpHdr, EobFullFrame, UdpPseudohdr}
use na62_farm_lib_networking.Network.Packed.{
  FrameFits, ArpFrameFits, EobFits, PseudoFits, number, udp_pseudohdr-IsLayout, udp_hdr-IsLayout,
  arp_hdr-IsLayout, eob_full_frame-IsLayout,
}
use na62_farm_lib_networking.Mrp.{
  TriggerRawHdr, MrpRawHdr, MrpFrameHdr, trigger_raw_hdr_bytes, mrp_raw_hdr_bytes,
  mrp_frame_hdr_bytes,
}

-- The values that the fields can have.
abbrev pub TriggerFits : TriggerRawHdr → Type 0
TriggerFits h =
    (h.timestamp < 256 ^ 4)
    × ((h.fine_time < 256 ^ 1)
        × ((h.request_zero_suppressed < 256 ^ 1)
            × ((h.trigger_type_word < 256 ^ 2)
                × ((h.reserved2 < 256 ^ 1) × (h.event_number < 256 ^ 3)))))

abbrev pub MrpFits : MrpRawHdr → Type 0
MrpFits h =
    (h.number_of_triggers < 256 ^ 2)
    × ((h.mrp_length < 256 ^ 2) × ((h.ip_address < 256 ^ 4) × (h.reserved < 256 ^ 4)))

abbrev pub MrpFrameFits : MrpFrameHdr → Type 0
MrpFrameFits h = FrameFits h.udp × MrpFits h.mrp_hdr

trigger_raw_hdr-IsLayout : IsLayout 12 TriggerFits trigger_raw_hdr_bytes
trigger_raw_hdr-IsLayout =
    struct-IsLayout
      (λ p. record {
        timestamp = p.0;
        fine_time = p.1.0;
        request_zero_suppressed = p.1.1.0;
        trigger_type_word = p.1.1.1.0;
        reserved2 = p.1.1.1.1.0;
        event_number = p.1.1.1.1.1;
      })
      (λ h. (
        h.timestamp,
        (
          h.fine_time,
          (h.request_zero_suppressed, (h.trigger_type_word, (h.reserved2, h.event_number))),
        ),
      ))
      (λ p. refl) (λ h. refl)
      (then-IsLayout (number 4) (
        then-IsLayout (number 1) (
          then-IsLayout (number 1)
            (then-IsLayout (number 2) (then-IsLayout (number 1) (number 3))))))

mrp_raw_hdr-IsLayout : IsLayout 12 MrpFits mrp_raw_hdr_bytes
mrp_raw_hdr-IsLayout =
    struct-IsLayout
      (λ p. record {
        number_of_triggers = p.0;
        mrp_length = p.1.0;
        ip_address = p.1.1.0;
        reserved = p.1.1.1;
      })
      (λ h. (h.number_of_triggers, (h.mrp_length, (h.ip_address, h.reserved)))) (λ p. refl)
      (λ h. refl)
      (then-IsLayout (number 2) (then-IsLayout (number 2) (then-IsLayout (number 4) (number 4))))

mrp_frame_hdr-IsLayout : IsLayout 54 MrpFrameFits mrp_frame_hdr_bytes
mrp_frame_hdr-IsLayout =
    struct-IsLayout (λ p. record { udp = p.0; mrp_hdr = p.1 }) (λ h. (h.udp, h.mrp_hdr)) (λ p. refl)
      (λ h. refl) (then-IsLayout udp_hdr-IsLayout mrp_raw_hdr-IsLayout)

-- The structs with the bytes of which they consist.
abbrev trigger_as_bytes : (h : TriggerRawHdr) × TriggerFits h → (bytes : List ℕ) × HasBytes 12 bytes
trigger_as_bytes = packed trigger_raw_hdr-IsLayout

abbrev mrp_as_bytes : (h : MrpFrameHdr) × MrpFrameFits h → (bytes : List ℕ) × HasBytes 54 bytes
mrp_as_bytes = packed mrp_frame_hdr-IsLayout

abbrev arp_as_bytes : (h : ArpHdr) × ArpFrameFits h → (bytes : List ℕ) × HasBytes 42 bytes
arp_as_bytes = packed arp_hdr-IsLayout

abbrev pseudo_as_bytes : (h : UdpPseudohdr) × PseudoFits h → (bytes : List ℕ) × HasBytes 12 bytes
pseudo_as_bytes = packed udp_pseudohdr-IsLayout

abbrev eob_as_bytes : (h : EobFullFrame) × EobFits h → (bytes : List ℕ) × HasBytes 50 bytes
eob_as_bytes = packed eob_full_frame-IsLayout

-- A trigger element of which each field holds a value of its width is the same thing as 12 bytes, and so
-- are the header of an MRP frame and 54 bytes, an ARP frame and 42 bytes, an end-of-burst frame and
-- 50 bytes, and a pseudo header and 12 bytes: storing the struct is an equivalence, so no byte is padding
-- and no two structs have the same bytes.
packed_structs-IsEquiv :
    IsEquiv trigger_as_bytes
    × IsEquiv mrp_as_bytes
    × IsEquiv arp_as_bytes
    × IsEquiv eob_as_bytes
    × IsEquiv pseudo_as_bytes
packed_structs-IsEquiv = (
  packed-IsEquiv trigger_raw_hdr-IsLayout,
  packed-IsEquiv mrp_frame_hdr-IsLayout,
  packed-IsEquiv arp_hdr-IsLayout,
  packed-IsEquiv eob_full_frame-IsLayout,
  packed-IsEquiv udp_pseudohdr-IsLayout,
)
