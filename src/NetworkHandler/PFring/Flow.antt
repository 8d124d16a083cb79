-- ===== src/NetworkHandler/PFring/Flow.antt =====
-- What each step of the PF_RING build's threads does to the frames on their way
-- (socket/PFringHandler.cpp).
use mathlib.Core.Path.{subst}
use mathlib.Core.List.{append-nil, append_assoc, map-append}
use na62_farm_lib_networking.Base.{
  ℕ, ◌-◌, ◌<◌, ◌≡◌, ◌∙◌, refl, sym, ap, List, [], ◌∷◌, ◌++◌, Option, none, some, inl, inr, arith,
  ltb, length, length-append, Bool-cases, take, drop, take-append, take_all, replicate,
}
use na62_farm_lib_networking.Memory.{DataContainer}
use na62_farm_lib_networking.Ethernet.Frames.{generate_gratuitous_arpv4}
use na62_farm_lib_networking.Ethernet.Frames.Wire.{length-announced}
use na62_farm_lib_networking.NetworkHandler.{Net, async_send_frame}
use na62_farm_lib_networking.NetworkHandler.Safety.{
  NetIsValid, IsLive-lt, new_array-IsLive, AllApart-push, async_send_frame-NetIsValid,
}
use na62_farm_lib_networking.NetworkHandler.Queued.{
  frame_of, queued, queued-new_array, frame_of-new_array, frame_of-new, queued-async_send_frame,
}
use na62_farm_lib_networking.NetworkHandler.PFring.{capacity, push_frame, make_announcement}
use na62_farm_lib_networking.NetworkHandler.PFring.Announcing.{share_again, made_CanShare}
use na62_farm_lib_networking.NetworkHandler.PFring.Emptied.{accepted}
use na62_farm_lib_networking.NetworkHandler.PFring.System.{
  Threads, owned, with_buffer, announcement, IsShared, IsSound, push_frame-some,
  length-async_send_frame,
}

pub accepted-append :
    (xs ys : List (Option (List ℕ))) → accepted (xs ++ ys) ≡ accepted xs ++ accepted ys
accepted-append [] ys = refl
accepted-append (none ∷ xs) ys = accepted-append xs ys
accepted-append (some f ∷ xs) ys = elim (Bool-cases (ltb 1500 (length f))) [
  | inl long ↦ rw long (accepted-append xs ys)
  | inr short ↦ rw short (ap (◌∷◌ (f ++ replicate (60 - length f) 0)) (accepted-append xs ys))
]

-- What is on the wire, and behind it what will be once the queue is sent.
abbrev pub flow : Net → List (List ℕ)
flow net = net.wire ++ accepted (queued net.heap net.async_send_data)

-- A step that puts these frames into the queue leaves this state.
pub record Puts (frames : List (Option (List ℕ))) (y z : Threads) : Type 0 where
  pub sound : IsSound z
  pub same_address : z.net.my_address ≡ y.net.my_address
  pub flows : flow z.net ≡ flow y.net ++ accepted frames

-- Frames that join the queue join the flow.
joins :
    (wire : List (List ℕ)) (before after frames : List (Option (List ℕ)))
    → after ≡ before ++ frames
    → wire ++ accepted after ≡ (wire ++ accepted before) ++ accepted frames
joins wire before after frames e =
    ap (λ l. wire ++ accepted l) e
    ∙ (ap (◌++◌ wire) (accepted-append before frames)
        ∙ sym (append_assoc wire (accepted before) (accepted frames)))

pub starts-Puts :
    (fresh : List ℕ) (y : Threads)
    → IsSound y
    → Puts [] y (record {
      net = (make_announcement fresh y.net).1;
      arp = some (make_announcement fresh y.net).0;
    })
unfolding make_announcement generate_gratuitous_arpv4
starts-Puts fresh y v =
    let mac = y.net.my_address.my_mac in
    let made = made_CanShare fresh y.net v.valid in
    let bytes = announcement y.net in
    let buffer = bytes ++ drop 42 (take 64 fresh) in
    let size = length-announced mac y.net.my_address.my_ip v.valid.mac_size in
    record {
      sound = record {
        valid = made.0;
        bounded = v.bounded;
        shared = (
          made.1,
          frame_of-new buffer y.net.heap (make_announcement fresh y.net).0 refl
                (omega (arith, size, length-append bytes (drop 42 (take 64 fresh))))
              ∙ ap some (take-append 42 bytes (drop 42 (take 64 fresh)) size),
        );
      };
      same_address = refl;
      flows = joins y.net.wire (queued y.net.heap y.net.async_send_data) _ [] (
          queued-new_array buffer y.net.heap y.net.async_send_data v.valid.heap_valid
            v.valid.queue_safe
          ∙ sym (append-nil _));
    }

sent_again-Puts :
    (arp : DataContainer) (y : Threads)
    → y.arp ≡ some arp
    → length y.net.async_send_data < capacity
    → IsSound y
    → Puts (some (announcement y.net) ∷ []) y (record y { net = async_send_frame arp y.net })
unfolding async_send_frame
sent_again-Puts arp y e room v =
    let shared : IsShared (some arp) y.net = subst (λ a. IsShared a y.net) e v.shared in
    let again = share_again arp y.net v.valid shared.0 in
    record {
      sound = record {
        valid = again.0;
        bounded = omega (arith, length-async_send_frame arp y.net);
        shared = subst (λ a. IsShared a (async_send_frame arp y.net)) (sym e) (again.1, shared.1);
      };
      same_address = refl;
      flows =
          joins y.net.wire (queued y.net.heap y.net.async_send_data) _
            (some (announcement y.net) ∷ [])
            (map-append (frame_of y.net.heap) y.net.async_send_data (arp ∷ [])
              ∙ ap (λ f. queued y.net.heap y.net.async_send_data ++ f ∷ []) shared.1);
    }

pub announces-Puts :
    (arp : DataContainer) (y : Threads) (net : Net)
    → y.arp ≡ some arp
    → push_frame arp y.net ≡ some net
    → IsSound y
    → Puts (some (announcement y.net) ∷ []) y (record y { net = net })
announces-Puts arp y net e p v =
    let (room, same) = push_frame-some arp y.net net p in
    subst (λ n. Puts (some (announcement y.net) ∷ []) y (record y { net = n })) same
      (sent_again-Puts arp y e room v)

beside_IsShared :
    (frame : List ℕ) (net : Net) (arp : Option DataContainer)
    → NetIsValid net
    → IsShared arp net
    → IsShared arp (async_send_frame (owned frame net) (with_buffer frame net))
unfolding async_send_frame
beside_IsShared frame net none v s = tt
beside_IsShared frame net (some d) v s = (
  record {
    kept = s.0.kept;
    live = new_array-IsLive frame net.heap d v.heap_valid s.0.live;
    apart =
        AllApart-push d (owned frame net) net.async_send_data s.0.apart
          (inr (λ same. let lt = IsLive-lt net.heap d v.heap_valid s.0.live in omega arith));
  },
  frame_of-new_array frame net.heap d v.heap_valid s.0.live ∙ s.1,
)

queued_new-Puts :
    (frame : List ℕ) (y : Threads)
    → length y.net.async_send_data < capacity
    → IsSound y
    → Puts
        (some frame ∷ [])
        y
        (record y { net = async_send_frame (owned frame y.net) (with_buffer frame y.net) })
unfolding async_send_frame
queued_new-Puts frame y room v = record {
  sound = record {
    valid = async_send_frame-NetIsValid y.net frame (owned frame y.net) v.valid refl (omega arith);
    bounded = omega (arith, length-async_send_frame (owned frame y.net) (with_buffer frame y.net));
    shared = beside_IsShared frame y.net y.arp v.valid v.shared;
  };
  same_address = refl;
  flows = joins y.net.wire (queued y.net.heap y.net.async_send_data) _ (some frame ∷ []) (
      queued-async_send_frame y.net frame (owned frame y.net) v.valid refl (omega arith)
      ∙ ap (λ f. queued y.net.heap y.net.async_send_data ++ some f ∷ [])
          (take_all (length frame) frame (omega arith)));
}

pub queues-Puts :
    (frame : List ℕ) (y : Threads) (net : Net)
    → push_frame (owned frame y.net) (with_buffer frame y.net) ≡ some net
    → IsSound y
    → Puts (some frame ∷ []) y (record y { net = net })
queues-Puts frame y net p v =
    let (room, same) = push_frame-some (owned frame y.net) (with_buffer frame y.net) net p in
    subst (λ n. Puts (some frame ∷ []) y (record y { net = n })) same
      (queued_new-Puts frame y room v)
