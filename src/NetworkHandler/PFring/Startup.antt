-- ===== src/NetworkHandler/PFring/Startup.antt =====
-- The constructor of the PF_RING build: one ring for each queue (socket/PFringHandler.cpp).
pub mod Settles
use mathlib.Core.Path.{subst}
use mathlib.Core.List.{append-nil, append_assoc}
use na62_farm_lib_networking.Base.{
  ℕ, zero, suc, ◌+◌, ◌≤◌, ◌<◌, ◌≡◌, ◌∙◌, ◌⊎◌, inl, inr, refl, sym, ap, List, [], ◌∷◌, ◌++◌, ◌>>=◌,
  Option, none, some, Bool, true, false, Bool-cases, if◌then◌else◌, ltb, length, take, drop, u8,
  length-append, length-take, take-append-drop, arith, pos, int_text,
}
use na62_farm_lib_networking.Ethernet.Frames.{MyAddress}
use na62_farm_lib_networking.Ethernet.Iface.{Kernel, get_mac_of_interface, get_ip_of_interface}
use na62_farm_lib_networking.NetworkHandler.PFring.{Rc, failed, bytes}
use na62_farm_lib_networking.NetworkHandler.PFring.Class.{PfRing, Request, new_pf_ring, enable_ring}

-- A queue of the device, and the watermark that its ring was given.
pub record Queue : Type 0 where
  pub pf_ring : PfRing
  pub poll_watermark : ℕ

-- The queues that were set up, and, when the program exits, those before the one that failed.
pub data Opening : Type 0 where
  ready exits : List Queue → Opening

pub get_elem? {ℓ} : {A : Type ℓ} → List A → ℕ → Option A
get_elem? [] i = none
get_elem? (x ∷ xs) zero = some x
get_elem? (x ∷ xs) (suc i) = get_elem? xs i

abbrev pub snaplen : ℕ
snaplen = 128

abbrev pub is_ok : Rc → Bool
is_ok failed = false
is_ok (bytes n) = true

module _ (library : ℕ → Request → Rc) (device_name : List ℕ) where
  -- `deviceName + "@" + std::to_string(i)`
  pub queue : ℕ → Option ℕ → Queue
  queue i ring = record {
    pf_ring = new_pf_ring ring (device_name ++ b'@' ∷ int_text (pos i)) snaplen;
    poll_watermark = 128;
  }

  -- The counter is a byte. `none` is a ring past the end of the array, or a loop that needs more rounds.
  pub open_queues : ℕ → List (Option ℕ) → ℕ → ℕ → List Queue → Option Opening
  unfolding get_elem? queue enable_ring
  open_queues zero rings number i opened = none
  open_queues (suc rounds) rings number i opened =
      if ltb i number
      then elim (get_elem? rings i) [
        | none ↦ none
        | some ring ↦
            let rest = open_queues rounds rings number (u8 (i + 1)) (opened ++ queue i ring ∷ []) in
            if is_ok (enable_ring library (queue i ring).pf_ring) then rest else some (exits opened)
      ]
      else some (ready opened)

-- The members that the constructor sets, and how its loop ended.
pub record Started : Type 0 where
  pub my_address : MyAddress
  pub device_name_ : List ℕ
  pub number_of_queues_ : ℕ
  pub opening : Opening

-- The constructor. `number` and `rings` are what `pfring_open_multichannel` gives, and `left_over` what
-- an uninitialised request holds.
unfoldable pub new_network_handler :
    Kernel → ℕ → (ℕ → Request → Rc) → List (Option ℕ) → ℕ → List ℕ → Option Started
unfolding open_queues
new_network_handler kernel left_over library rings number device_name = do
  mac ← get_mac_of_interface kernel device_name
  opening ← open_queues library device_name (suc number) rings number 0 []
  some (record {
    my_address = record { my_mac = mac; my_ip = get_ip_of_interface kernel left_over device_name };
    device_name_ = device_name;
    number_of_queues_ = number;
    opening = opening;
  })

pub get_device_name : Started → List ℕ
get_device_name s = s.device_name_

pub get_number_of_queues : Started → ℕ
get_number_of_queues s = s.number_of_queues_

-- What `PrintStats` writes of each queue: its number, what it received and what it dropped. A queue
-- that reports nothing is given the numbers of the one before.
pub stats_rows : ℕ → ℕ × ℕ → List (Option (ℕ × ℕ)) → List (ℕ × (ℕ × ℕ))
stats_rows i stats [] = []
stats_rows i stats (none ∷ rings) = (i, stats) ∷ stats_rows (i + 1) stats rings
stats_rows i stats (some new ∷ rings) = (i, new) ∷ stats_rows (i + 1) new rings

pub print_stats : List (Option (ℕ × ℕ)) → List (ℕ × (ℕ × ℕ))
unfolding stats_rows
print_stats rings = stats_rows 0 (0, 0) rings
