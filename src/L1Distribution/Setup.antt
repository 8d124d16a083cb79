-- ===== src/L1Distribution/Setup.antt =====
-- `Initialize` (l1/L1DistributionHandler.cpp).
use na62_farm_lib_networking.Base.{
  ℕ, ◌≡◌, ◌↔◌, refl, List, [], ◌∷◌, ◌++◌, none, some, length, u32, Option-cases, inl, inr,
}
use na62_farm_lib_networking.Ethernet.Mac.{string_to_mac}
use na62_farm_lib_networking.Ethernet.Mac.Errors.{string_to_mac-some}
use na62_farm_lib_networking.Ethernet.Multicast.{
  generate_multicast_mac, length-generate_multicast_mac,
}
use na62_farm_lib_networking.Ethernet.Frames.{MyAddress, generate_udp}
use na62_farm_lib_networking.Mrp.{MrpFrameHdr}
use na62_farm_lib_networking.L1Distribution.{
  L1DistributionHandler, Resolver, Options, with_left_over, request_hdr, push_all, multicast_hdr,
  unicast_hdr, initialize, get_l1_triggers_sent, get_l1_mrps_sent,
}
use na62_farm_lib_networking.L1Distribution.Headers.{
  IsFor, request_hdr-IsFor, AllFor, push_all-AllFor, address_of,
}

-- `l1'` has a ready header more for each multicast group, at the group's MAC and address, and for each
-- unicast text, at the gateway's MAC `mac`; its limits are the options', and the rest is kept.
pub record IsInitialized (me : MyAddress) (resolver : Resolver) (o : Options) (left_over : ℕ → ℕ)
    (mac : List ℕ) (l1 l1' : L1DistributionHandler) : Type 0 where
  pub new_multicast : List MrpFrameHdr
  pub multicast_added :
      l1'.l1_multicast_request_hdrs ≡ l1.l1_multicast_request_hdrs ++ new_multicast
  pub multicast_ready :
      AllFor me
        (λ g. generate_multicast_mac (u32 (resolver.inet_addr g)))
        (λ g. u32 (resolver.inet_addr g))
        o.source_port
        o.destination_port
        o.multicast_group_names
        new_multicast
  pub new_unicast : List MrpFrameHdr
  pub unicast_added : l1'.l1_unicast_request_hdrs ≡ l1.l1_unicast_request_hdrs ++ new_unicast
  pub unicast_ready :
      AllFor me
        (λ _. mac)
        (address_of resolver)
        o.source_port
        o.destination_port
        (with_left_over left_over 0 o.unicast_address)
        new_unicast
  pub max_set : l1'.max_triggers_per_l1mrp ≡ o.max_triggers_per_mrp
  pub wait_set : l1'.min_usec_between_l1_requests ≡ o.min_usec_between_l1_requests
  pub queue_kept : l1'.multicast_mrp_queue ≡ l1.multicast_mrp_queue
  pub triggers_kept : get_l1_triggers_sent l1' ≡ get_l1_triggers_sent l1
  pub mrps_kept : get_l1_mrps_sent l1' ≡ get_l1_mrps_sent l1

module _ (me : MyAddress) (resolver : Resolver) (o : Options) (left_over : ℕ → ℕ) where
  abbrev initialized :
      List MrpFrameHdr
      → List MrpFrameHdr
      → MrpFrameHdr
      → L1DistributionHandler
      → L1DistributionHandler
  initialized multicast unicast hdr l1 = record l1 {
    max_triggers_per_l1mrp = o.max_triggers_per_mrp;
    min_usec_between_l1_requests = o.min_usec_between_l1_requests;
    l1_multicast_request_hdrs = multicast;
    l1_unicast_request_hdrs = unicast;
    l1_unicast_request_hdr = some hdr;
  }

  initialize_lem :
      (l1 : L1DistributionHandler) (a b : List MrpFrameHdr) (h : MrpFrameHdr)
      → push_all (multicast_hdr me resolver o) o.multicast_group_names l1.l1_multicast_request_hdrs
        ≡ some a
      → push_all
          (unicast_hdr me resolver o)
          (with_left_over left_over 0 o.unicast_address)
          l1.l1_unicast_request_hdrs
        ≡ some b
      → request_hdr me (string_to_mac o.gateway_mac) 0 o.source_port o.destination_port ≡ some h
      → initialize me resolver o left_over l1 ≡ some (initialized a b h l1)
  unfolding initialize
  initialize_lem l1 a b h e f g = rw (e, initialize) (rw f (rw g refl))

  module _ (mine : length me.my_mac ≡ 6) where
    multicast_ok :
        (g : List ℕ)
        → (h : MrpFrameHdr) × (multicast_hdr me resolver o g ≡ some h)
          × IsFor me
              (generate_multicast_mac (u32 (resolver.inet_addr g)))
              (u32 (resolver.inet_addr g))
              o.source_port
              o.destination_port
              h
    unfolding multicast_hdr
    multicast_ok g = request_hdr-IsFor me _ _ _ _ mine (length-generate_multicast_mac _)

    unicast_ok :
        (mac : List ℕ)
        → string_to_mac o.gateway_mac ≡ some mac
        → (a : ℕ × List ℕ)
        → (h : MrpFrameHdr) × (unicast_hdr me resolver o a ≡ some h)
          × IsFor me mac (address_of resolver a) o.source_port o.destination_port h
    unfolding unicast_hdr
    unicast_ok mac e (n, a) =
        rw e (request_hdr-IsFor me mac _ _ _ mine (string_to_mac-some o.gateway_mac mac e).0)

    -- With six bytes as this machine's MAC and a gateway MAC that is read, `Initialize` returns. It adds
    -- a header for each group, to the group's MAC and address, and one for each unicast text, to the
    -- gateway's MAC and the address that `inet_pton` reads from the text, or, where it reads none, to
    -- whatever the uninitialised `caddress` held in that round; all are from this machine and with the
    -- given ports. It sets the two limits, and keeps the queue and the counters.
    pub initialize-IsInitialized :
        (l1 : L1DistributionHandler) (mac : List ℕ)
        → string_to_mac o.gateway_mac ≡ some mac
        → (l1' : L1DistributionHandler) × (initialize me resolver o left_over l1 ≡ some l1')
          × IsInitialized me resolver o left_over mac l1 l1'
    initialize-IsInitialized l1 mac e =
        let multi =
          push_all-AllFor me _ _ _ _ (multicast_hdr me resolver o) multicast_ok
            o.multicast_group_names l1.l1_multicast_request_hdrs in
        let uni =
          push_all-AllFor me (λ _. mac) (address_of resolver) _ _ (unicast_hdr me resolver o)
            (unicast_ok mac e) (with_left_over left_over 0 o.unicast_address)
            l1.l1_unicast_request_hdrs in
        let last =
          request_hdr-IsFor me mac 0 o.source_port o.destination_port mine
            (string_to_mac-some o.gateway_mac mac e).0 in
        (
          initialized (l1.l1_multicast_request_hdrs ++ multi.0)
              (l1.l1_unicast_request_hdrs ++ uni.0) last.0 l1,
          initialize_lem l1 _ _ last.0 multi.1 uni.1 (rw e last.1),
          record {
            new_multicast = multi.0;
            multicast_added = refl;
            multicast_ready = multi.2;
            new_unicast = uni.0;
            unicast_added = refl;
            unicast_ready = uni.2;
            max_set = refl;
            wait_set = refl;
            queue_kept = refl;
            triggers_kept = refl;
            mrps_kept = refl;
          },
        )

    unicast_none :
        string_to_mac o.gateway_mac ≡ none → (a : ℕ × List ℕ) → unicast_hdr me resolver o a ≡ none
    unfolding unicast_hdr request_hdr generate_udp
    unicast_none e (n, a) = rw (e, request_hdr) refl

    initialize_null_lem :
        (l1 : L1DistributionHandler) (a : List MrpFrameHdr) (addresses : List (List ℕ))
        → o.unicast_address ≡ addresses
        → push_all
            (multicast_hdr me resolver o)
            o.multicast_group_names
            l1.l1_multicast_request_hdrs
          ≡ some a
        → string_to_mac o.gateway_mac ≡ none
        → initialize me resolver o left_over l1 ≡ none
    unfolding initialize push_all request_hdr generate_udp
    initialize_null_lem l1 a [] u m e = rw (m, initialize) (rw (u, e, push_all) refl)
    initialize_null_lem l1 a (x ∷ xs) u m e =
        rw (m, initialize) (rw (u, push_all) (rw (unicast_none e (left_over 0, x)) refl))

    -- With six bytes as this machine's MAC, `Initialize` uses a null pointer exactly when the gateway's
    -- MAC address is not read.
    pub initialize-none_iff :
        (l1 : L1DistributionHandler)
        → (initialize me resolver o left_over l1 ≡ none) ↔ (string_to_mac o.gateway_mac ≡ none)
    initialize-none_iff l1 = (
      λ fails. elim (Option-cases (string_to_mac o.gateway_mac)) [
        | inl e ↦ e
        | inr (mac, e) ↦ let r = initialize-IsInitialized l1 mac e in let e' = r.1 in cc
      ],
      λ e.
          let multi =
            push_all-AllFor me _ _ _ _ (multicast_hdr me resolver o) multicast_ok
              o.multicast_group_names l1.l1_multicast_request_hdrs in
          initialize_null_lem l1 _ o.unicast_address refl multi.1 e,
    )
