-- ===== src/NetworkHandler/PFring/Beside.antt =====
-- What a sender of the PF_RING build leaves to the other threads (socket/PFringHandler.cpp).
use mathlib.Core.Path.{subst}
use mathlib.Core.List.{append-nil}
use na62_farm_lib_networking.Base.{
  ℕ, ◌≤◌, ◌≡◌, ◌∙◌, refl, sym, ap, List, [], ◌∷◌, ◌++◌, Option, none, some, true, arith, ◌&&◌, ◌==◌,
  if◌then◌else◌, length,
}
use na62_farm_lib_networking.Memory.{Heap, DataContainer, read}
use na62_farm_lib_networking.Network.{arp_hdr_bytes}
use na62_farm_lib_networking.Ethernet.Frames.Wire.{announced}
use na62_farm_lib_networking.NetworkHandler.{Net}
use na62_farm_lib_networking.NetworkHandler.Safety.{IsLive, IsApart, AllApart, AreSafe, IsApart-sym}
use na62_farm_lib_networking.NetworkHandler.Queued.{queued}
use na62_farm_lib_networking.NetworkHandler.Outbox.{kept_read, kept_frame, kept_frames}
use na62_farm_lib_networking.NetworkHandler.PFring.{
  Rc, Ring, capacity, do_send, do_send_queued_frames,
}
use na62_farm_lib_networking.NetworkHandler.PFring.Sending.{Succeeds, Sends, pfring_send-Sends}
use na62_farm_lib_networking.NetworkHandler.PFring.Emptied.{accepted, Sends-wire}
use na62_farm_lib_networking.NetworkHandler.PFring.System.{Threads, IsShared, IsSound}
use na62_farm_lib_networking.NetworkHandler.PFring.Flow.{Puts}

still_IsLive :
    (h h' : Heap) (d e : DataContainer)
    → ((a : ℕ) → read h' a ≡ (if d.owner_may_free_data && a == d.data_ then none else read h a))
    → IsApart d e
    → IsLive h e
    → IsLive h' e
still_IsLive h h' d e freed apart live =
    (live.0, ground (arith, freed e.data_, kept_read d e apart, live.1), live.2)

after_IsShared :
    (arp : Option DataContainer) (d : DataContainer) (q : List DataContainer) (net out : Net)
    (n : ℕ) (rc : Rc)
    → net.async_send_data ≡ d ∷ q
    → Sends n d q net out rc
    → IsShared arp net
    → IsShared arp out
after_IsShared none d q net out n rc e s v = tt
after_IsShared (some a) d q net out n rc e s v =
    let away : AllApart a (d ∷ q) = subst (AllApart a) e v.0.apart in
    let apart = IsApart-sym a d away.0 in
    (
      record {
        kept = v.0.kept;
        live = still_IsLive net.heap out.heap d a s.buffer_freed apart v.0.live;
        apart = subst (AllApart a) (sym s.next_in_queue) away.1;
      },
      kept_frame net.heap out.heap d a s.buffer_freed apart
          ∙ (v.1
              ∙ ap (λ me. some (arp_hdr_bytes (announced me.my_mac me.my_ip)))
                  (sym s.same_address)),
    )

taken-Puts :
    (d : DataContainer) (q : List DataContainer) (y : Threads) (out : Net) (n : ℕ) (rc : Rc)
    → y.net.async_send_data ≡ d ∷ q
    → Sends n d q y.net out rc
    → IsSound y
    → Puts [] y (record y { net = out })
taken-Puts d q y out n rc e s v =
    let net = y.net in
    let safe : AreSafe net.heap (d ∷ q) = subst (AreSafe net.heap) e v.valid.queue_safe in
    record {
      sound = record {
        valid = s.still_valid;
        bounded =
            let fits : length (d ∷ q) ≤ capacity = subst (λ l. length l ≤ capacity) e v.bounded in
            let fewer : length out.async_send_data ≡ length q = ap length s.next_in_queue in
            omega arith;
        shared = after_IsShared y.arp d q net out n rc e s v.shared;
      };
      same_address = s.same_address;
      flows =
          ap (λ l. out.wire ++ accepted (queued out.heap l)) s.next_in_queue
          ∙ (ap (λ l. out.wire ++ accepted l)
                (kept_frames net.heap out.heap d q s.buffer_freed safe.1)
              ∙ (Sends-wire safe.0 s (queued net.heap q)
                  ∙ (ap (λ l. net.wire ++ accepted (queued net.heap l)) (sym e)
                      ∙ sym (append-nil _))));
    }

unchanged-Puts : (y : Threads) → IsSound y → Puts [] y y
unchanged-Puts y v = record { sound = v; same_address = refl; flows = sym (append-nil _) }

same_net :
    (ring : Ring) (net out : Net) (rc : Rc) → do_send ring [] net ≡ some (out, rc) → net ≡ out
unfolding do_send
same_net ring net out rc e = cc

pub sends-Puts :
    (ring : Ring) (n : ℕ) (y : Threads) (net : Net) (rc : Rc)
    → ring.is_open ≡ true
    → Succeeds n ring.answers
    → do_send_queued_frames ring y.net ≡ some (net, rc)
    → IsSound y
    → Puts [] y (record y { net = net })
unfolding do_send_queued_frames
sends-Puts ring n y net rc works s e v = go y.net.async_send_data refl
  where
    go : (q : List DataContainer) → y.net.async_send_data ≡ q → Puts [] y (record y { net = net })
    go [] f =
        let nothing : do_send ring [] y.net ≡ some (net, rc) =
          sym (ap (λ l. do_send ring l y.net) f) ∙ e in
        subst (λ x. Puts [] y (record y { net = x })) (same_net ring y.net net rc nothing)
          (unchanged-Puts y v)
    go (d ∷ q) f =
        let r = pfring_send-Sends ring n y.net d q works s v.valid f in
        let same : r.0 ≡ net =
          let one : ◌≡◌ {A = Option (Net × Rc)} (some (r.0, r.1)) (some (net, rc)) = sym r.2 ∙ e in
          cc in
        subst (λ x. Puts [] y (record y { net = x })) same (taken-Puts d q y r.0 n r.1 f r.3 v)
