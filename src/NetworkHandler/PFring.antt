-- ===== src/NetworkHandler/PFring.antt =====
-- socket/PFringHandler.cpp, the build of `NetworkHandler` over PF_RING, and what it uses of
-- socket/PFring.cpp. What the PF_RING library answers is an argument of each function.
pub mod Sending
pub mod Announcing
pub mod Drops
pub mod Emptied
pub mod System
pub mod Flow
pub mod Beside
pub mod Runs
pub mod Class
pub mod Startup
mod Tests
use na62_farm_lib_networking.Base.{
  ℕ, zero, suc, ◌+◌, ◌-◌, List, [], ◌∷◌, ◌++◌, Option, none, some, Bool, true, false, if◌then◌else◌,
  ltb, ◌==◌, length, replicate, u64,
}
use na62_farm_lib_networking.Memory.{DataContainer}
use na62_farm_lib_networking.Ethernet.Frames.{generate_gratuitous_arpv4}
use na62_farm_lib_networking.NetworkHandler.{Net, async_send_frame, load, free_frame}

-- An `int` that is negative, or a number of bytes.
pub data Rc : Type 0 where
  failed : Rc
  bytes : ℕ → Rc

-- A ring that may be null, and the answers of `pfring_send` to come.
pub record Ring : Type 0 where
  pub is_open : Bool
  pub answers : List Rc

-- `while (rc < 0) rc = pfring_send(…)`; `none` is a loop that has not ended with these answers.
pub send_loop : List Rc → Option Rc
send_loop [] = none
send_loop (failed ∷ answers) = send_loop answers
send_loop (bytes n ∷ answers) = some (bytes n)

pub send_packet : Ring → List ℕ → Option Rc
unfolding send_loop
send_packet ring pkt =
    if ring.is_open
    then (if ltb 1500 (length pkt) then some failed else send_loop ring.answers)
    else some failed

-- The Ethernet trailer; its buffer is freed before the function returns.
abbrev pub padded : List ℕ → List ℕ
padded pkt = if ltb (length pkt) 60 then pkt ++ replicate (60 - length pkt) 0 else pkt

-- The device has what a send without failure was given.
pub on_wire : Rc → List ℕ → List (List ℕ) → List (List ℕ)
on_wire failed pkt wire = wire
on_wire (bytes n) pkt wire = wire ++ pkt ∷ []

pub send_frame_concurrently : Ring → List ℕ → Net → Option (Net × Rc)
unfolding send_packet on_wire
send_frame_concurrently ring pkt net = elim (send_packet ring (padded pkt)) [
  | none ↦ none
  | some rc ↦ some (
    record net { frames_sent = u64 (net.frames_sent + 1); wire = on_wire rc (padded pkt) net.wire },
    rc,
  )
]

pub free_sent : DataContainer → Option (Net × Rc) → Option (Net × Rc)
free_sent d none = none
free_sent d (some (net, rc)) = elim (free_frame d net) [ none ↦ none | some net' ↦ some (net', rc) ]

pub do_send : Ring → List DataContainer → Net → Option (Net × Rc)
unfolding send_frame_concurrently free_sent
do_send ring [] net = some (net, bytes 0)
do_send ring (d ∷ q) net = elim (load net.heap d.data_ d.length) [
  | none ↦ none
  | some pkt ↦ free_sent d (send_frame_concurrently ring pkt (record net { async_send_data = q }))
]

-- A whole call, with the retries of send_packet. `none` is an access of memory that is not live, or a send
-- that has not ended.
unfoldable pub do_send_queued_frames : Ring → Net → Option (Net × Rc)
unfolding do_send
do_send_queued_frames ring net = do_send ring net.async_send_data net

-- `hdr_len` is the length in the packet's header, and `result` what `pfring_recv` returns.
unfoldable pub get_next_frame : ℕ → Rc → Net → Net × Rc
get_next_frame hdr_len failed net = (net, failed)
get_next_frame hdr_len (bytes result) net =
    if result == 1
    then (
      record net {
        bytes_received = u64 (net.bytes_received + hdr_len);
        frames_received = u64 (net.frames_received + 1);
      },
      bytes result,
    )
    else (net, bytes result)

-- The drops that each ring reports, if it reports any; `drop` is what the one before it left.
pub dropped_from : ℕ → List (Option ℕ) → ℕ → ℕ
dropped_from drop [] dropped = dropped
dropped_from drop (none ∷ rings) dropped = dropped_from drop rings (u64 (dropped + drop))
dropped_from drop (some n ∷ rings) dropped = dropped_from n rings (u64 (dropped + n))

unfoldable pub get_frames_dropped : List (Option ℕ) → ℕ
unfolding dropped_from
get_frames_dropped rings = dropped_from 0 rings 0

-- `asyncSendData_.set_capacity(1000)`; `none` is a push that waits.
abbrev pub capacity : ℕ
capacity = 1000

unfoldable pub push_frame : DataContainer → Net → Option Net
push_frame frame net =
    if ltb (length net.async_send_data) capacity then some (async_send_frame frame net) else none

-- What `thread` does before its loop: one announcement, in a buffer of its own.
unfoldable pub make_announcement : List ℕ → Net → DataContainer × Net
make_announcement fresh net =
    let (arp, h) =
      generate_gratuitous_arpv4 fresh net.my_address.my_mac net.my_address.my_ip net.heap in
    (record arp { owner_may_free_data = false }, record net { heap = h })

-- Its rounds; the copy that each makes of the frame is only for a log message that is commented out.
unfoldable pub announce : ℕ → DataContainer → Net → Option Net
unfolding push_frame
announce zero arp net = some net
announce (suc rounds) arp net = elim (push_frame arp net) [
  | none ↦ none
  | some net' ↦ announce rounds arp net'
]
