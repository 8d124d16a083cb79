-- ===== src/NetworkHandler/PFring/Announcing.antt =====
-- The announcements of `NetworkHandler::thread` over PF_RING (socket/PFringHandler.cpp).
use mathlib.Core.List.{append-nil, append_assoc}
use na62_farm_lib_networking.Base.{
  ℕ, zero, suc, take, drop, ◌+◌, ◌≤◌, ◌≡◌, ◌∙◌, sym, refl, List, [], ◌∷◌, ◌++◌, some, true, false,
  inl, arith, ltb, length, length-append, replicate,
}
use na62_farm_lib_networking.Memory.{DataContainer}
use na62_farm_lib_networking.Memory.Laws.{read-new_array, new_array-IsValid}
use na62_farm_lib_networking.Network.{arp_hdr_bytes}
use na62_farm_lib_networking.Ethernet.Frames.{generate_gratuitous_arpv4}
use na62_farm_lib_networking.Ethernet.Frames.Wire.{announced, length-announced}
use na62_farm_lib_networking.NetworkHandler.{Net, async_send_frame}
use na62_farm_lib_networking.NetworkHandler.Safety.{
  IsLive, AllApart, NetIsValid, AllApart-push, AreSafe-push, newer-AllApart, new_array-AreSafe,
}
use na62_farm_lib_networking.NetworkHandler.PFring.{
  capacity, push_frame, make_announcement, announce,
}

-- A live frame that no sender frees may join the queue any number of times.
pub record CanShare (d : DataContainer) (net : Net) : Type 0 where
  pub kept : d.owner_may_free_data ≡ false
  pub live : IsLive net.heap d
  pub apart : AllApart d net.async_send_data

pub share_again :
    (d : DataContainer) (net : Net)
    → NetIsValid net
    → CanShare d net
    → NetIsValid (async_send_frame d net) × CanShare d (async_send_frame d net)
unfolding async_send_frame
share_again d net v s = (
  record {
    heap_valid = v.heap_valid;
    queue_safe =
        AreSafe-push net.heap net.async_send_data d v.heap_valid v.queue_safe s.live s.apart;
    mac_size = v.mac_size;
  },
  record {
    kept = s.kept;
    live = s.live;
    apart = AllApart-push d d net.async_send_data s.apart (inl (let k = s.kept in ground arith));
  },
)

announce_lem :
    (rounds : ℕ) (d : DataContainer) (net : Net)
    → NetIsValid net
    → CanShare d net
    → length net.async_send_data + rounds ≤ capacity
    → (out : Net) × (announce rounds d net ≡ some out)
      × NetIsValid out
      × (out.async_send_data ≡ net.async_send_data ++ replicate rounds d)
      × (out.heap ≡ net.heap)
unfolding announce push_frame async_send_frame
announce_lem zero d net v s room = (net, refl, v, sym (append-nil _), refl)
announce_lem (suc rounds) d net v s room =
    let again = share_again d net v s in
    let free : ltb (length net.async_send_data) capacity ≡ true = ground arith in
    let rest =
      announce_lem rounds d (async_send_frame d net) again.0 again.1
        (omega (arith, length-append net.async_send_data (d ∷ []))) in
    (
      rest.0,
      rw (free, announce) rest.1,
      rest.2,
      rest.3 ∙ append_assoc net.async_send_data (d ∷ []) (replicate rounds d),
      rest.4,
    )

pub made_CanShare :
    (fresh : List ℕ) (net : Net)
    → NetIsValid net
    → NetIsValid (make_announcement fresh net).1
      × CanShare (make_announcement fresh net).0 (make_announcement fresh net).1
unfolding make_announcement generate_gratuitous_arpv4
made_CanShare fresh net v =
    let mac = net.my_address.my_mac in
    let buffer = arp_hdr_bytes (announced mac net.my_address.my_ip) ++ drop 42 (take 64 fresh) in
    let d = (make_announcement fresh net).0 in
    (
      record {
        heap_valid = new_array-IsValid buffer net.heap v.heap_valid;
        queue_safe =
            new_array-AreSafe buffer net.heap net.async_send_data v.heap_valid v.queue_safe;
        mac_size = v.mac_size;
      },
      record {
        kept = refl;
        live = (
          buffer,
          read-new_array buffer net.heap,
          omega (
            arith,
            length-announced mac net.my_address.my_ip v.mac_size,
            length-append (arp_hdr_bytes (announced mac net.my_address.my_ip))
                (drop 42 (take 64 fresh)),
          ),
        );
        apart = newer-AllApart net.heap d net.async_send_data v.heap_valid v.queue_safe refl;
      },
    )

-- From a valid state whose queue has room, the thread makes one announcement and its next `rounds`
-- rounds queue that same frame `rounds` times: no round makes a buffer, none waits, and the state stays
-- valid, so no sender reads a buffer that is gone or frees one twice.
pub announce-make_announcement :
    (rounds : ℕ) (fresh : List ℕ) (net : Net)
    → NetIsValid net
    → length net.async_send_data + rounds ≤ capacity
    → let (arp, made) = make_announcement fresh net in
      (out : Net) × (announce rounds arp made ≡ some out)
      × NetIsValid out
      × (out.async_send_data ≡ net.async_send_data ++ replicate rounds arp)
      × (out.heap ≡ made.heap)
unfolding make_announcement
announce-make_announcement rounds fresh net v room =
    let (arp, made) = make_announcement fresh net in
    let m = made_CanShare fresh net v in announce_lem rounds arp made m.0 m.1 room
