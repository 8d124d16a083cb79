-- ===== src/NetworkHandler/PFring/Class.antt =====
-- The class `ntop::PFring` (socket/PFring.h, socket/PFring.cpp), but for `send_packet`, which stands with
-- `Ring` in the module above. What the PF_RING library answers is an argument.
use na62_farm_lib_networking.Base.{
  ℕ, ◌≡◌, refl, List, Option, none, some, Bool, true, false, if◌then◌else◌, ltb, u8, u16, u32,
}
use na62_farm_lib_networking.NetworkHandler.PFring.{Rc, failed, bytes}

-- `ring` is what the library opened, by a number, or null.
pub record PfRing : Type 0 where
  pub ring : Option ℕ
  pub snaplen : ℕ
  pub device_name : List ℕ

-- A call of the library with a ring. Rules are known by numbers; the mode of a cluster is always
-- `cluster_round_robin`.
pub data Request : Type 0 where
  set_cluster_round_robin : ℕ → Request
  leaves_cluster enables gets_stats gets_version counts_channels : Request
  sets_channel_id sets_bpf_filter adds_filtering_rule removes_filtering_rule sets_sampling_rate
        gets_rule_stats gets_hash_rule_stats :
      ℕ → Request
  toggles_policy : Bool → Request
  handles_hash_rule : ℕ → Bool → Request
  receives : ℕ → Bool → Request

-- The constructor copies the name; the flags are not used.
pub new_pf_ring : Option ℕ → List ℕ → ℕ → PfRing
new_pf_ring ring device_name snaplen = record {
  ring = ring;
  snaplen = u32 snaplen;
  device_name = device_name;
}

-- What the destructor releases: the copied name and the ring, or nothing at all if there is no ring.
pub record Released : Type 0 where
  pub frees_name : Bool
  pub closes : Option ℕ

pub destroy_pf_ring : PfRing → Released
destroy_pf_ring p = elim p.ring [
  | none ↦ record { frees_name = false; closes = none }
  | some r ↦ record { frees_name = true; closes = some r }
]

pub get_device_name : PfRing → List ℕ
get_device_name p = p.device_name

module _ (library : ℕ → Request → Rc) where
  -- `ring ? pfring_…(ring, …) : -1`
  abbrev pub ask : PfRing → Request → Rc
  ask p request = elim p.ring [ none ↦ failed | some r ↦ library r request ]

  pub set_cluster : ℕ → PfRing → Rc
  set_cluster cluster_id p = ask p (set_cluster_round_robin cluster_id)

  pub remove_from_cluster : PfRing → Rc
  remove_from_cluster p = ask p leaves_cluster

  pub set_channel_id : ℕ → PfRing → Rc
  set_channel_id channel_id p = ask p (sets_channel_id channel_id)

  pub add_bpf_filter : ℕ → PfRing → Rc
  add_bpf_filter filter p = ask p (sets_bpf_filter filter)

  pub add_filtering_rule : ℕ → PfRing → Rc
  add_filtering_rule rule p = ask p (adds_filtering_rule rule)

  pub remove_filtering_rule : ℕ → PfRing → Rc
  remove_filtering_rule rule_id p = ask p (removes_filtering_rule (u16 rule_id))

  pub toggle_filtering_policy : Bool → PfRing → Rc
  toggle_filtering_policy accepts p = ask p (toggles_policy accepts)

  pub add_hash_filtering_rule : ℕ → PfRing → Rc
  add_hash_filtering_rule rule p = ask p (handles_hash_rule rule true)

  pub remove_hash_filtering_rule : ℕ → PfRing → Rc
  remove_hash_filtering_rule rule p = ask p (handles_hash_rule rule false)

  pub get_stats : PfRing → Rc
  get_stats p = ask p gets_stats

  pub get_filtering_rule_stats : ℕ → PfRing → Rc
  get_filtering_rule_stats rule_id p = ask p (gets_rule_stats (u16 rule_id))

  pub get_hash_filtering_rule_stats : ℕ → PfRing → Rc
  get_hash_filtering_rule_stats rule p = ask p (gets_hash_rule_stats rule)

  unfoldable pub enable_ring : PfRing → Rc
  enable_ring p = ask p enables

  pub set_sampling_rate : ℕ → PfRing → Rc
  set_sampling_rate rate p = ask p (sets_sampling_rate (u32 rate))

  pub get_version : PfRing → Rc
  get_version p = ask p gets_version

  -- The result is a byte: -1 becomes 255.
  pub get_num_rx_channels : PfRing → ℕ
  get_num_rx_channels p = elim (ask p counts_channels) [ failed ↦ 255 | bytes n ↦ u8 n ]

  -- A header that is null is refused too.
  pub get_next_packet : Bool → ℕ → Bool → PfRing → Rc
  get_next_packet has_header pkt_len waits p =
      if has_header then ask p (receives (u32 pkt_len) waits) else failed

-- The ring is handed to the library without a test.
pub start_loop : (Option ℕ → Rc) → PfRing → Rc
start_loop pfring_loop p = pfring_loop p.ring

-- `fd` is the ring's descriptor.
pub get_socket_id : (ℕ → ℕ) → PfRing → Rc
get_socket_id fd p = elim p.ring [ none ↦ failed | some r ↦ bytes (fd r) ]

-- `poll` of the descriptor; one of -1 is not looked at, so that call only waits.
pub wait_for_packets : (Rc → Rc) → (ℕ → ℕ) → PfRing → Bool
unfolding get_socket_id
wait_for_packets poll fd p = elim (poll (get_socket_id fd p)) [ failed ↦ false | bytes n ↦ ltb 0 n ]

-- Every member of an object without a ring fails, whatever the library would answer, and 255
-- channels are reported.
null_ring-failed :
    (library : ℕ → Request → Rc) (name : List ℕ) (snaplen n : ℕ) (b has_header : Bool)
    → let p = new_pf_ring none name snaplen in
      (set_cluster library n p ≡ failed)
      × (remove_from_cluster library p ≡ failed)
      × (set_channel_id library n p ≡ failed)
      × (add_bpf_filter library n p ≡ failed)
      × (add_filtering_rule library n p ≡ failed)
      × (remove_filtering_rule library n p ≡ failed)
      × (toggle_filtering_policy library b p ≡ failed)
      × (add_hash_filtering_rule library n p ≡ failed)
      × (remove_hash_filtering_rule library n p ≡ failed)
      × (get_stats library p ≡ failed)
      × (get_filtering_rule_stats library n p ≡ failed)
      × (get_hash_filtering_rule_stats library n p ≡ failed)
      × (enable_ring library p ≡ failed)
      × (set_sampling_rate library n p ≡ failed)
      × (get_version library p ≡ failed)
      × (get_next_packet library has_header n b p ≡ failed)
      × (get_num_rx_channels library p ≡ 255)
unfolding set_cluster remove_from_cluster set_channel_id add_bpf_filter add_filtering_rule
    remove_filtering_rule toggle_filtering_policy add_hash_filtering_rule remove_hash_filtering_rule
    get_stats get_filtering_rule_stats get_hash_filtering_rule_stats enable_ring set_sampling_rate
    get_version get_next_packet get_num_rx_channels new_pf_ring
null_ring-failed library name snaplen n b false = (
  refl, refl, refl, refl, refl, refl, refl, refl, refl, refl, refl, refl, refl, refl, refl, refl,
  refl,
)
null_ring-failed library name snaplen n b true = (
  refl, refl, refl, refl, refl, refl, refl, refl, refl, refl, refl, refl, refl, refl, refl, refl,
  refl,
)
