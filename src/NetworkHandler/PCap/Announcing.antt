-- ===== src/NetworkHandler/PCap/Announcing.antt =====
-- The announcements of `NetworkHandler::thread` (socket/PCapHandler.cpp).
use na62_farm_lib_networking.Base.{
  Bool, take, drop, ℕ, ◌≡◌, refl, List, [], ◌∷◌, ◌++◌, false, arith, length-append, ap, ◌∙◌, some,
}
use na62_farm_lib_networking.NetworkHandler.{Net, async_send_frame}
use na62_farm_lib_networking.NetworkHandler.Safety.{NetIsValid, async_send_frame-NetIsValid}
use na62_farm_lib_networking.NetworkHandler.PCap.{thread_round, do_send_queued_frames}
use na62_farm_lib_networking.NetworkHandler.PCap.Sending.{do_send_queued_frames-Sends}
use na62_farm_lib_networking.Memory.{DataContainer, read}
use na62_farm_lib_networking.Memory.Laws.{read-new_array}
use na62_farm_lib_networking.Network.{arp_hdr_bytes}
use na62_farm_lib_networking.Ethernet.Frames.{generate_gratuitous_arpv4}
use na62_farm_lib_networking.Ethernet.Frames.Wire.{announced, length-announced}

-- A round of the announcing thread leaves a valid state, with one frame more in the queue.
pub thread_round-NetIsValid :
    (fresh : List ℕ) (net : Net) → NetIsValid net → NetIsValid (thread_round fresh net)
unfolding thread_round generate_gratuitous_arpv4
thread_round-NetIsValid fresh net v =
    let mac = net.my_address.my_mac in
    let ip = net.my_address.my_ip in
    async_send_frame-NetIsValid net (arp_hdr_bytes (announced mac ip) ++ drop 42 (take 64 fresh))
      (record { data_ = net.heap.next; length = 42; owner_may_free_data = false }) v refl
      (omega (
        arith,
        length-announced mac ip v.mac_size,
        length-append {0} (arp_hdr_bytes (announced mac ip)) (drop 42 (take 64 fresh)),
      ))

-- A block that is live and that no waiting frame names.
abbrev pub IsLost : ℕ → Net → Type 0
IsLost a net = (bytes : List ℕ) × (read net.heap a ≡ some bytes) × (net.async_send_data ≡ [])

abbrev announced_container : Net → DataContainer
announced_container net = record { data_ = net.heap.next; length = 42; owner_may_free_data = false }

-- From a valid state with nothing queued, a round of the announcing thread and the call that sends
-- its frame leave an empty queue and the announcement's buffer still live: each round loses a buffer.
pub announcement-IsLost :
    (fresh : List ℕ) (sent : Bool) (net : Net)
    → NetIsValid net
    → net.async_send_data ≡ []
    → (out : Net) × (n : ℕ) × (do_send_queued_frames sent (thread_round fresh net) ≡ some (out, n))
      × IsLost net.heap.next out
unfolding thread_round generate_gratuitous_arpv4 async_send_frame
announcement-IsLost fresh sent net v e =
    let buffer =
      arp_hdr_bytes (announced net.my_address.my_mac net.my_address.my_ip)
      ++ drop 42 (take 64 fresh) in
    let r =
      do_send_queued_frames-Sends sent (thread_round fresh net) (announced_container net) []
        (thread_round-NetIsValid fresh net v) (ap (λ q. q ++ announced_container net ∷ []) e) in
    (
      r.0,
      r.1,
      r.2,
      (buffer, r.3.buffer_freed net.heap.next ∙ read-new_array buffer net.heap, r.3.next_in_queue),
    )
