-- ===== src/NetworkHandler.antt =====
-- socket/NetworkHandler.h: the static members and what both builds share. `PCap` is the build without
-- `USE_PFRING` (socket/PCapHandler.cpp).
pub mod Safety
pub mod Queued
pub mod Outbox
pub mod Receiving
pub mod PCap
pub mod PFring
mod Tests
use na62_farm_lib_networking.Base.{
  ℕ, ◌+◌, List, [], ◌∷◌, ◌++◌, Option, none, some, Bool, true, ltb, if◌then◌else◌, length, take,
  u32, u64,
}
use na62_farm_lib_networking.Memory.{Heap, DataContainer, read, delete_array}
use na62_farm_lib_networking.Ethernet.Frames.{MyAddress}

-- `heap` is the memory, and `wire` what the device was given to send, oldest first.
pub record Net : Type 0 where
  pub my_address : MyAddress
  pub async_send_data : List DataContainer
  pub bytes_received : ℕ
  pub frames_received : ℕ
  pub frames_sent : ℕ
  pub heap : Heap
  pub wire : List (List ℕ)

-- The members before the constructor runs.
abbrev pub unset : Net
unset = record {
  my_address = record { my_mac = []; my_ip = 0 };
  async_send_data = [];
  bytes_received = 0;
  frames_received = 0;
  frames_sent = 0;
  heap = record { next = 0; cells = [] };
  wire = [];
}

-- The container is copied into the queue, and its buffer is not.
unfoldable pub async_send_frame : DataContainer → Net → Net
async_send_frame frame net = record net { async_send_data = net.async_send_data ++ frame ∷ [] }

pub get_number_of_enqueued_send_frames : Net → ℕ
get_number_of_enqueued_send_frames net = u32 (length net.async_send_data)

-- The first `n` bytes at an address; `none` is an access of what is not live, or past its end.
abbrev pub load : Heap → ℕ → ℕ → Option (List ℕ)
load h a n = elim (read h a) [
  | none ↦ none
  | some bytes ↦ if ltb (length bytes) n then none else some (take n bytes)
]

-- `if (ownerMayFreeData) delete[] data`
abbrev pub free_frame : DataContainer → Net → Option Net
free_frame d net =
    if d.owner_may_free_data
    then elim (delete_array d.data_ net.heap) [
      | none ↦ none
      | some h ↦ some (record net { heap = h })
    ]
    else some net

pub get_my_mac : Net → List ℕ
get_my_mac net = net.my_address.my_mac

-- The member is wider; 32 bits are returned.
pub get_my_ip : Net → ℕ
get_my_ip net = u32 net.my_address.my_ip

pub get_bytes_received : Net → ℕ
get_bytes_received net = net.bytes_received

pub get_frames_received : Net → ℕ
get_frames_received net = net.frames_received

pub get_frames_sent : Net → ℕ
get_frames_sent net = net.frames_sent
