-- ===== src/NetworkHandler/PCap.antt =====
-- socket/PCapHandler.cpp: the build of `NetworkHandler` over a raw socket. What the system calls
-- answer is an argument of each function.
pub mod Sending
pub mod Senders
pub mod Announcing
pub mod Startup
use na62_farm_lib_networking.Base.{
  ℕ, ◌+◌, List, [], ◌∷◌, ◌++◌, Option, none, some, Bool, true, false, if◌then◌else◌, length, take,
  u64,
}
use na62_farm_lib_networking.Memory.{DataContainer, new_array}
use na62_farm_lib_networking.Ethernet.Frames.{generate_gratuitous_arpv4}
use na62_farm_lib_networking.NetworkHandler.{Net, unset, async_send_frame, load, free_frame}

abbrev pub buf_size : ℕ
buf_size = 9000

-- `recvBuffer_` is allocated before the constructor runs, and not initialised.
abbrev pub unset_members : List ℕ → Net
unset_members garbage = record unset { heap = (new_array garbage unset.heap).1 }

pub get_number_of_queues : ℕ
get_number_of_queues = 1

pub get_frames_dropped : ℕ
get_frames_dropped = 0

-- `received` is what `recvfrom` puts into the buffer, `none` its -1. The result is the returned length,
-- with the packet if there is one.
unfoldable pub get_next_frame : Option (List ℕ) → Net → Net × ℕ × Option (List ℕ)
get_next_frame none net = (net, 0, none)
get_next_frame (some received) net =
    let pkt = take buf_size received in
    (
      record net {
        frames_received = u64 (net.frames_received + 1);
        bytes_received = u64 (net.bytes_received + length pkt);
      },
      length pkt,
      some pkt,
    )

-- A failed `sendto` prints a message, and the length is returned all the same.
unfoldable pub send_frame_concurrently : Bool → List ℕ → Net → Net × ℕ
send_frame_concurrently sent pkt net = (
  record net {
    frames_sent = u64 (net.frames_sent + 1);
    wire = if sent then net.wire ++ pkt ∷ [] else net.wire;
  },
  length pkt,
)

send_and_free : Bool → DataContainer → List ℕ → Net → Option (Net × ℕ)
send_and_free sent d pkt net =
    let (net', bytes) = send_frame_concurrently sent pkt net in
    elim (free_frame d net') [
      | none ↦ none
      | some net'' ↦ some (record net'' { frames_sent = u64 (net''.frames_sent + 1) }, bytes)
    ]

-- What follows a `try_pop` that gave `d`.
unfoldable pub give : Bool → DataContainer → Net → Option (Net × ℕ)
unfolding send_and_free send_frame_concurrently
give sent d net = elim (load net.heap d.data_ d.length) [
  | none ↦ none
  | some pkt ↦ send_and_free sent d pkt net
]

do_send : Bool → List DataContainer → Net → Option (Net × ℕ)
unfolding give
do_send sent [] net = some (net, 0)
do_send sent (d ∷ q) net = give sent d (record net { async_send_data = q })

-- A whole call; in `L1Distribution.Thread.Sender` its `try_pop` and the rest are two steps. `none` is an access
-- of memory that is not live.
unfoldable pub do_send_queued_frames : Bool → Net → Option (Net × ℕ)
unfolding do_send
do_send_queued_frames sent net = do_send sent net.async_send_data net

-- One round of `thread`: a new announcement, whose buffer nobody frees.
unfoldable pub thread_round : List ℕ → Net → Net
thread_round fresh net =
    let (arp, h) =
      generate_gratuitous_arpv4 fresh net.my_address.my_mac net.my_address.my_ip net.heap in
    async_send_frame (record arp { owner_may_free_data = false }) (record net { heap = h })
