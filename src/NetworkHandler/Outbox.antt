-- ===== src/NetworkHandler/Outbox.antt =====
-- What `NetworkHandler` promises of sending: a queue of frames, first in, first out, and what the
-- device was given. Buffers, addresses and counters are forgotten (socket/PCapHandler.cpp).
use mathlib.Core.List.{append-nil, append_assoc, map-append}
use mathlib.Core.Path.{subst, ap₂}
use na62_farm_lib_networking.Base.{
  ℕ, ◌≡◌, ◌∙◌, refl, sym, ap, List, [], ◌∷◌, ◌++◌, map, Option, none, some, Bool, true, false, ◌&&◌,
  ◌==◌, if◌then◌else◌, arith, inl, inr, take, drop, take-append, length-append,
}
use na62_farm_lib_networking.Memory.{Heap, DataContainer, read}
use na62_farm_lib_networking.Network.{arp_hdr_bytes}
use na62_farm_lib_networking.Ethernet.Frames.{generate_gratuitous_arpv4}
use na62_farm_lib_networking.Ethernet.Frames.Wire.{announced, length-announced}
use na62_farm_lib_networking.NetworkHandler.{Net, async_send_frame}
use na62_farm_lib_networking.NetworkHandler.Safety.{IsApart, AllApart, AreSafe, NetIsValid}
use na62_farm_lib_networking.NetworkHandler.Queued.{frame_of, queued, queued-async_send_frame}
use na62_farm_lib_networking.NetworkHandler.PCap.{do_send_queued_frames, thread_round}
use na62_farm_lib_networking.NetworkHandler.PCap.Sending.{
  do_send_queued_frames-Sends, do_send_queued_frames-empty,
}

-- `none` would be a frame that cannot be read.
pub record Outbox : Type 0 where
  pub waiting : List (Option (List ℕ))
  pub given : List (Option (List ℕ))

pub data Action : Type 0 where
  puts : List (Option (List ℕ)) → Action
  takes : Bool → Action

-- Frames join the queue at its end. The first frame leaves it, and the device is given it if the
-- system call works; with nothing queued nothing happens.
unfoldable pub take_first : Bool → Outbox → List (Option (List ℕ)) → Outbox
take_first sent o [] = o
take_first sent o (frame ∷ frames) = record {
  waiting = frames;
  given = if sent then o.given ++ frame ∷ [] else o.given;
}

unfoldable pub perform : Action → Outbox → Outbox
unfolding take_first
perform (puts frames) o = record o { waiting = o.waiting ++ frames }
perform (takes sent) o = take_first sent o o.waiting

unfoldable pub perform_all : List Action → Outbox → Outbox
unfolding perform
perform_all [] o = o
perform_all (a ∷ actions) o = perform_all actions (perform a o)

-- What a state of the network handler is, seen from outside.
abbrev pub outbox : Net → Outbox
outbox net = record { waiting = queued net.heap net.async_send_data; given = map some net.wire }

pub kept_read :
    (d e : DataContainer) → IsApart d e → (d.owner_may_free_data && e.data_ == d.data_) ≡ false
kept_read d e (inl kept) = ground arith
kept_read d e (inr ne) = ground (arith, λ (q : e.data_ ≡ d.data_). ne (sym q))

-- A frame that is apart from the freed one keeps its bytes.
pub kept_frame :
    (h h' : Heap) (d e : DataContainer)
    → ((a : ℕ) → read h' a ≡ (if d.owner_may_free_data && a == d.data_ then none else read h a))
    → IsApart d e
    → frame_of h' e ≡ frame_of h e
kept_frame h h' d e freed apart = ground (arith, freed e.data_, kept_read d e apart)

pub kept_frames :
    (h h' : Heap) (d : DataContainer) (q : List DataContainer)
    → ((a : ℕ) → read h' a ≡ (if d.owner_may_free_data && a == d.data_ then none else read h a))
    → AllApart d q
    → queued h' q ≡ queued h q
kept_frames h h' d [] freed apart = refl
kept_frames h h' d (e ∷ q) freed apart =
    ap₂ ◌∷◌ (kept_frame h h' d e freed apart.0) (kept_frames h h' d q freed apart.1)

given_frame :
    (sent : Bool) (wire : List (List ℕ)) (frame : List ℕ) (r : Option (List ℕ))
    → r ≡ some frame
    → map some (if sent then wire ++ frame ∷ [] else wire)
      ≡ (if sent then map some wire ++ r ∷ [] else map some wire)
given_frame true wire frame r e =
    map-append some wire (frame ∷ []) ∙ ap (λ f. map some wire ++ f ∷ []) (sym e)
given_frame false wire frame r e = refl

-- A call that sends does to the outbox what `takes` says.
pub outbox-do_send_queued_frames :
    (sent : Bool) (net out : Net) (n : ℕ)
    → NetIsValid net
    → do_send_queued_frames sent net ≡ some (out, n)
    → outbox out ≡ perform (takes sent) (outbox net)
unfolding perform take_first
outbox-do_send_queued_frames sent net out n v e = go net.async_send_data refl
  where
    go :
        (l : List DataContainer)
        → net.async_send_data ≡ l
        → outbox out ≡ take_first sent (outbox net) (queued net.heap net.async_send_data)
    go [] q =
        let same : net ≡ out = cc (do_send_queued_frames-empty sent net q, e) in
        ap outbox (sym same) ∙ ap (λ l. take_first sent (outbox net) (queued net.heap l)) (sym q)
    go (d ∷ q) w =
        let r = do_send_queued_frames-Sends sent net d q v w in
        let same : r.0 ≡ out = cc (r.2, e) in
        let safe : AreSafe net.heap (d ∷ q) = subst (AreSafe net.heap) w v.queue_safe in
        ap outbox (sym same)
        ∙ (ap₂ (λ a b. record { waiting = a; given = b })
              (ap (queued r.0.heap) r.3.next_in_queue
                ∙ kept_frames net.heap r.0.heap d q r.3.buffer_freed safe.1)
              (ap (map some) r.3.on_wire
                ∙ given_frame sent net.wire r.3.frame_bytes _ r.3.read_from_buffer)
            ∙ ap (λ l. take_first sent (outbox net) (queued net.heap l)) (sym w))

-- A round of the announcing thread puts one ARP request behind what waits.
pub outbox-thread_round :
    (fresh : List ℕ) (net : Net)
    → NetIsValid net
    → outbox (thread_round fresh net)
      ≡ perform
          (puts (some (arp_hdr_bytes (announced net.my_address.my_mac net.my_address.my_ip)) ∷ []))
          (outbox net)
unfolding thread_round generate_gratuitous_arpv4 async_send_frame perform
outbox-thread_round fresh net v =
    let mac = net.my_address.my_mac in
    let ip = net.my_address.my_ip in
    let bytes = arp_hdr_bytes (announced mac ip) in
    let whole = bytes ++ drop 42 (take 64 fresh) in
    ap (λ w. record { waiting = w; given = map some net.wire })
      (queued-async_send_frame net whole
          (record { data_ = net.heap.next; length = 42; owner_may_free_data = false }) v refl
          (omega (
            arith,
            length-announced mac ip v.mac_size,
            length-append {0} bytes (drop 42 (take 64 fresh)),
          ))
        ∙ ap (λ b. queued net.heap net.async_send_data ++ some b ∷ [])
            (take-append 42 bytes _ (length-announced mac ip v.mac_size)))

-- No action takes a frame that the device is not given.
abbrev pub AllGiven : List Action → Type 0
AllGiven [] = Unit {0}
AllGiven (puts frames ∷ actions) = AllGiven actions
AllGiven (takes sent ∷ actions) = (sent ≡ true) × AllGiven actions

abbrev pub all_put : List Action → List (Option (List ℕ))
all_put [] = []
all_put (puts frames ∷ actions) = frames ++ all_put actions
all_put (takes sent ∷ actions) = all_put actions

abbrev pub all_frames : Outbox → List (Option (List ℕ))
all_frames o = o.given ++ o.waiting

pub perform-takes : (o : Outbox) → all_frames (perform (takes true) o) ≡ all_frames o
unfolding perform take_first
perform-takes o = go o.waiting
  where
    go :
        (l : List (Option (List ℕ)))
        → all_frames (take_first true (record o { waiting = l }) l) ≡ o.given ++ l
    go [] = refl
    go (frame ∷ frames) = append_assoc o.given (frame ∷ []) frames

-- What was given and what waits are together what they were, followed by what was put.
pub perform_all-order :
    (actions : List Action) (o : Outbox)
    → AllGiven actions
    → all_frames (perform_all actions o) ≡ all_frames o ++ all_put actions
unfolding perform_all perform
perform_all-order [] o g = sym (append-nil _)
perform_all-order (puts frames ∷ actions) o g =
    perform_all-order actions (perform (puts frames) o) g
    ∙ (ap (λ l. l ++ all_put actions) (sym (append_assoc o.given o.waiting frames))
        ∙ append_assoc (all_frames o) frames (all_put actions))
perform_all-order (takes sent ∷ actions) o g =
    perform_all-order actions (perform (takes sent) o) g.1
    ∙ ap (λ l. l ++ all_put actions)
        (ap (λ b. all_frames (perform (takes b) o)) g.0 ∙ perform-takes o)
