-- ===== src/L1Distribution/Sending.antt =====
-- `Async_SendMRP` (l1/L1DistributionHandler.cpp). A list of triggers has the vector's back at its head.
pub mod Frame
pub mod Batch
pub mod Received
pub mod Front
use na62_farm_lib_networking.Base.{
  ℕ, ◌+◌, ◌*◌, List, [], ◌∷◌, ◌++◌, Option, none, some, true, ltb, ◌==◌, if◌then◌else◌, ◌>>=◌,
  length, u16, u32, u64,
}
use na62_farm_lib_networking.Memory.{new_array}
use na62_farm_lib_networking.Network.{UdpHdr, iphdr_bytes}
use na62_farm_lib_networking.Ethernet.Checksum.{Checksums, generate_checksum, set_udp_checksum}
use na62_farm_lib_networking.Mrp.{
  TriggerRawHdr, MrpFrameHdr, sizeof_mrp_frame_hdr, sizeof_trigger_raw_hdr, trigger_raw_hdr_bytes,
  mrp_raw_hdr_bytes, mrp_frame_hdr_bytes, get_size, set_number_of_triggers,
}
use na62_farm_lib_networking.NetworkHandler.{Net, async_send_frame}
use na62_farm_lib_networking.L1Distribution.{L1DistributionHandler}

-- The loop's variables when it ends; `contents` is what it wrote into the buffer past the header.
pub record Packed : Type 0 where
  pub triggers : List TriggerRawHdr
  pub number_of_triggers : ℕ
  pub offset : ℕ
  pub contents : List ℕ

module _ (max_triggers : ℕ) (size_of_mrp : ℕ) where
  -- `none` is a write past the end of the buffer.
  pub pack : ℕ → ℕ → List ℕ → List TriggerRawHdr → Option Packed
  pack number offset contents [] =
      some (record {
        triggers = [];
        number_of_triggers = number;
        offset = offset;
        contents = contents;
      })
  pack number offset contents (trigger ∷ triggers) =
      if number == max_triggers
      then some (record {
        triggers = trigger ∷ triggers;
        number_of_triggers = number;
        offset = offset;
        contents = contents;
      })
      else if ltb size_of_mrp (offset + sizeof_trigger_raw_hdr)
      then none
      else pack (number + 1) (offset + sizeof_trigger_raw_hdr)
          (contents ++ trigger_raw_hdr_bytes trigger) triggers

pub size_of_mrp : ℕ → List TriggerRawHdr → ℕ
size_of_mrp max_triggers triggers = u32 (
    sizeof_mrp_frame_hdr
    + sizeof_trigger_raw_hdr
      * (if ltb max_triggers (length triggers) then max_triggers else length triggers))

module _ (c : Checksums) where
  -- The IP checksum of the header with a zero check field.
  abbrev pub set_ip_checksum : UdpHdr → UdpHdr
  set_ip_checksum hdr =
      let zeroed = record hdr.ip { check = 0 } in
      record hdr { ip = record zeroed { check = generate_checksum c (iphdr_bytes zeroed) 0 } }

  -- The header over the copied buffer. `none` is a checksum past the end of the frame.
  unfoldable pub make_frame : ℕ → List ℕ → MrpFrameHdr → Option (List ℕ)
  make_frame number_of_triggers contents data_hdr =
      let hdr = set_number_of_triggers data_hdr (u16 number_of_triggers) in
      set_udp_checksum c (set_ip_checksum hdr.udp) (mrp_raw_hdr_bytes hdr.mrp_hdr ++ contents)
        (get_size hdr.mrp_hdr)
      >>= λ udp. some (mrp_frame_hdr_bytes (record hdr { udp = udp }) ++ contents)

  -- One frame to the send queue for each header; the queue frees it once it is sent.
  pub send_frames : Packed → List MrpFrameHdr → Net → Option Net
  send_frames p [] net = some net
  send_frames p (data_hdr ∷ hdrs) net =
      make_frame p.number_of_triggers p.contents data_hdr >>= λ frame.
      let (address, h) = new_array frame net.heap in
      send_frames p hdrs (
        async_send_frame (record { data_ = address; length = p.offset; owner_may_free_data = true })
          (record net { heap = h }))

  -- The triggers that stay in the vector, the members and the network state.
  unfoldable pub async_send_mrp :
      List TriggerRawHdr
      → L1DistributionHandler
      → Net
      → Option (List TriggerRawHdr × L1DistributionHandler × Net)
  async_send_mrp triggers l1 net = do
    p ←
        pack l1.max_triggers_per_l1mrp (size_of_mrp l1.max_triggers_per_l1mrp triggers) 0
          sizeof_mrp_frame_hdr [] triggers
    net' ← send_frames p l1.l1_unicast_request_hdrs net
    net'' ← send_frames p l1.l1_multicast_request_hdrs net'
    some (
      p.triggers,
      record l1 {
        l1_triggers_sent = u64 (l1.l1_triggers_sent + p.number_of_triggers);
        l1_mrps_sent = u64 (l1.l1_mrps_sent + 1);
      },
      net'',
    )
