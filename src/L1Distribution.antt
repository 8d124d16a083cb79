-- ===== src/L1Distribution.antt =====
-- l1/L1DistributionHandler.h and l1/L1DistributionHandler.cpp: the static members, the requests, and
-- `Initialize`. `Sending` is `Async_SendMRP`, `Thread` the loop that calls it.
pub mod Requests
pub mod Headers
pub mod Setup
pub mod Sending
pub mod Thread
mod Tests
use na62_farm_lib_networking.Base.{
  ◌+◌, ℕ, List, [], ◌∷◌, ◌++◌, Option, none, some, Bool, true, false, if◌then◌else◌, ◌>>=◌, u16,
  u32,
}
use na62_farm_lib_networking.Ethernet.Mac.{string_to_mac}
use na62_farm_lib_networking.Ethernet.Multicast.{generate_multicast_mac}
use na62_farm_lib_networking.Ethernet.Frames.{MyAddress, generate_udp}
use na62_farm_lib_networking.Mrp.{
  TriggerRawHdr, MrpFrameHdr, Event, new_mrp_frame_hdr, generate_trigger_hdr,
}

-- The static members. The queue's front is the head of its list.
pub record L1DistributionHandler : Type 0 where
  pub multicast_mrp_queue : List TriggerRawHdr
  pub l1_multicast_request_hdrs : List MrpFrameHdr
  pub l1_unicast_request_hdrs : List MrpFrameHdr
  pub l1_unicast_request_hdr : Option MrpFrameHdr
  pub l1_triggers_sent : ℕ
  pub l1_mrps_sent : ℕ
  pub max_triggers_per_l1mrp : ℕ
  pub min_usec_between_l1_requests : ℕ

abbrev pub start : L1DistributionHandler
start = record {
  multicast_mrp_queue = [];
  l1_multicast_request_hdrs = [];
  l1_unicast_request_hdrs = [];
  l1_unicast_request_hdr = none;
  l1_triggers_sent = 0;
  l1_mrps_sent = 0;
  max_triggers_per_l1mrp = 0;
  min_usec_between_l1_requests = 0;
}

abbrev pub get_l1_triggers_sent : L1DistributionHandler → ℕ
get_l1_triggers_sent l1 = l1.l1_triggers_sent

abbrev pub get_l1_mrps_sent : L1DistributionHandler → ℕ
get_l1_mrps_sent l1 = l1.l1_mrps_sent

-- `flush_burst` is what `BurstIdHandler::flushBurst()` returns.
unfoldable pub async_request_l1_data_multicast :
    Bool → Event → Bool → L1DistributionHandler → L1DistributionHandler
async_request_l1_data_multicast flush_burst event z_suppressed l1 =
    if flush_burst then l1 else record l1 {
      multicast_mrp_queue = l1.multicast_mrp_queue ++ generate_trigger_hdr event z_suppressed ∷ [];
    }

-- It only logs.
pub async_request_l1_data_unicast :
    Event → Bool → List ℕ → L1DistributionHandler → L1DistributionHandler
async_request_l1_data_unicast event z_suppressed sub_source_ids l1 = l1

-- The C library's readers of dotted addresses; `inet_pton` writes nothing for a text that is none.
pub record Resolver : Type 0 where
  pub inet_addr : List ℕ → ℕ
  pub inet_pton : List ℕ → Option ℕ

-- A new frame header, filled by `GenerateUDP` and the two assignments after it; `none` is the use of a
-- null MAC.
unfoldable pub request_hdr : MyAddress → Option (List ℕ) → ℕ → ℕ → ℕ → Option MrpFrameHdr
request_hdr me mac d_ip source_port destination_port =
    generate_udp me new_mrp_frame_hdr.udp mac d_ip (u16 source_port) (u16 destination_port)
    >>= λ udp. some (record {
      udp = udp;
      mrp_hdr = record new_mrp_frame_hdr.mrp_hdr { ip_address = me.my_ip; reserved = 0 };
    })

-- `for (x : xs) hdrs.push_back(f x)`
unfoldable pub push_all {ℓ} :
    {A : Type ℓ} → (A → Option MrpFrameHdr) → List A → List MrpFrameHdr → Option (List MrpFrameHdr)
push_all f [] hdrs = some hdrs
push_all f (x ∷ xs) hdrs = f x >>= λ hdr. push_all f xs (hdrs ++ hdr ∷ [])

-- A loop's texts, each with what an uninitialised variable holds in that round.
abbrev pub with_left_over : (ℕ → ℕ) → ℕ → List (List ℕ) → List (ℕ × List ℕ)
with_left_over left_over n [] = []
with_left_over left_over n (text ∷ texts) =
    (left_over n, text) ∷ with_left_over left_over (n + 1) texts

pub record Options : Type 0 where
  pub max_triggers_per_mrp : ℕ
  pub min_usec_between_l1_requests : ℕ
  pub multicast_group_names : List (List ℕ)
  pub unicast_address : List (List ℕ)
  pub source_port : ℕ
  pub destination_port : ℕ
  pub gateway_mac : List ℕ

module _ (me : MyAddress) (resolver : Resolver) (o : Options) where
  pub multicast_hdr : List ℕ → Option MrpFrameHdr
  multicast_hdr multicast_ip =
      let multicast_group = u32 (resolver.inet_addr multicast_ip) in
      request_hdr me (some (generate_multicast_mac multicast_group)) multicast_group o.source_port
        o.destination_port

  -- `left_over` is what this round's `caddress` on the stack holds before `inet_pton`, which does not
  -- write it for a text that is no address; its result is not looked at.
  pub unicast_hdr : ℕ × List ℕ → Option MrpFrameHdr
  unicast_hdr (left_over, unicast_addr) =
      let s_addr : ℕ = elim (resolver.inet_pton unicast_addr) [ none ↦ left_over | some a ↦ a ] in
      request_hdr me (string_to_mac o.gateway_mac) s_addr o.source_port o.destination_port

  -- `left_over` has what `caddress` holds in each round of the loop over the unicast addresses.
  unfoldable pub initialize : (ℕ → ℕ) → L1DistributionHandler → Option L1DistributionHandler
  initialize left_over l1 = do
    multicast ← push_all multicast_hdr o.multicast_group_names l1.l1_multicast_request_hdrs
    unicast ←
        push_all unicast_hdr (with_left_over left_over 0 o.unicast_address)
          l1.l1_unicast_request_hdrs
    hdr ← request_hdr me (string_to_mac o.gateway_mac) 0 o.source_port o.destination_port
    some (record l1 {
      max_triggers_per_l1mrp = o.max_triggers_per_mrp;
      min_usec_between_l1_requests = o.min_usec_between_l1_requests;
      l1_multicast_request_hdrs = multicast;
      l1_unicast_request_hdrs = unicast;
      l1_unicast_request_hdr = some hdr;
    })
