-- ===== src/NetworkHandler/Receiving.antt =====
-- Series of frames that are received, in both builds (socket/PCapHandler.cpp, socket/PFringHandler.cpp).
use mathlib.Core.Path.{ap₂}
use na62_farm_lib_networking.Base.{
  ℕ, ◌+◌, ◌^◌, ◌<◌, sym, ◌≡◌, ◌∙◌, ap, List, [], ◌∷◌, map, Option, none, some, arith, ◌==◌,
  if◌then◌else◌, length, take, u64, Bool-cases, inl, inr,
}
use na62_farm_lib_networking.NetworkHandler.{Net}
use na62_farm_lib_networking.NetworkHandler.PCap
use na62_farm_lib_networking.NetworkHandler.PFring
use na62_farm_lib_networking.NetworkHandler.PFring.{Rc, failed, bytes}

-- One call for each answer of `recvfrom`, with the packets that the calls give.
pub receive_all : List (Option (List ℕ)) → Net → Net × List (List ℕ)
receive_all [] net = (net, [])
receive_all (answer ∷ answers) net =
    let (net', size, packet) = PCap.get_next_frame answer net in
    let (out, packets) = receive_all answers net' in
    elim packet [ none ↦ (out, packets) | some p ↦ (out, p ∷ packets) ]

-- The frames that arrived, cut to the buffer's 9000 bytes.
abbrev pub arrived : List (Option (List ℕ)) → List (List ℕ)
arrived [] = []
arrived (none ∷ answers) = arrived answers
arrived (some frame ∷ answers) = take 9000 frame ∷ arrived answers

abbrev pub total : List ℕ → ℕ
total [] = 0
total (n ∷ ns) = n + total ns

-- One call for each answer of the ring: the length in the packet's header, and what is returned.
pub poll_all : List (ℕ × Rc) → Net → Net
poll_all [] net = net
poll_all ((hdr_len, result) ∷ polls) net =
    poll_all polls (PFring.get_next_frame hdr_len result net).0

-- The lengths of the packets that a ring gave: it returns 1 for each.
abbrev pub polled : List (ℕ × Rc) → List ℕ
polled [] = []
polled ((hdr_len, failed) ∷ polls) = polled polls
polled ((hdr_len, bytes n) ∷ polls) = if n == 1 then hdr_len ∷ polled polls else polled polls

-- The members with frames of these lengths counted.
abbrev pub counting : List ℕ → Net → Net
counting sizes net = record net {
  frames_received = u64 (net.frames_received + length sizes);
  bytes_received = u64 (net.bytes_received + total sizes);
}

none_counted :
    (net : Net) → net.frames_received < 2 ^ 64 → net.bytes_received < 2 ^ 64 → counting [] net ≡ net
none_counted net f b =
    ap₂ (λ x y. record net { frames_received = x; bytes_received = y }) (omega arith) (omega arith)

one_counted :
    (n : ℕ) (sizes : List ℕ) (net : Net)
    → counting sizes (counting (n ∷ []) net) ≡ counting (n ∷ sizes) net
one_counted n sizes net =
    ap₂ (λ x y. record net { frames_received = x; bytes_received = y }) (omega arith) (omega arith)

counting-lt :
    (sizes : List ℕ) (net : Net)
    → ((counting sizes net).frames_received < 2 ^ 64)
      × ((counting sizes net).bytes_received < 2 ^ 64)
counting-lt sizes net = (omega arith, omega arith)

receive_all-counting :
    (answers : List (Option (List ℕ))) (net : Net)
    → net.frames_received < 2 ^ 64
    → net.bytes_received < 2 ^ 64
    → receive_all answers net ≡ (counting (map length (arrived answers)) net, arrived answers)
unfolding receive_all PCap.get_next_frame
receive_all-counting [] net f b = ap (λ n. (n, [])) (sym (none_counted net f b))
receive_all-counting (none ∷ answers) net f b = receive_all-counting answers net f b
receive_all-counting (some frame ∷ answers) net f b =
    let n = length (take 9000 frame) in
    let next : Net = record net {
      frames_received = u64 (net.frames_received + 1);
      bytes_received = u64 (net.bytes_received + n);
    } in
    let same : next ≡ counting (n ∷ []) net =
      ap (λ y. record next { bytes_received = y }) (omega arith) in
    let ih = receive_all-counting answers next (omega arith) (omega arith) in
    ap (λ r. (r.0, take 9000 frame ∷ r.1)) ih
    ∙ ap (λ m. (m, take 9000 frame ∷ arrived answers))
        (ap (counting (map length (arrived answers))) same
          ∙ one_counted n (map length (arrived answers)) net)

poll_all-counting :
    (polls : List (ℕ × Rc)) (net : Net)
    → net.frames_received < 2 ^ 64
    → net.bytes_received < 2 ^ 64
    → poll_all polls net ≡ counting (polled polls) net
unfolding poll_all PFring.get_next_frame
poll_all-counting [] net f b = sym (none_counted net f b)
poll_all-counting ((hdr_len, failed) ∷ polls) net f b = poll_all-counting polls net f b
poll_all-counting ((hdr_len, bytes n) ∷ polls) net f b = elim (Bool-cases (n == 1)) [
  | inl packet ↦
      let next : Net = record net {
        bytes_received = u64 (net.bytes_received + hdr_len);
        frames_received = u64 (net.frames_received + 1);
      } in
      let same : next ≡ counting (hdr_len ∷ []) net =
        ap (λ y. record next { bytes_received = y }) (omega arith) in
      rw packet (
        poll_all-counting polls next (omega arith) (omega arith)
        ∙ (ap (counting (polled polls)) same ∙ one_counted hdr_len (polled polls) net))
  | inr other ↦ rw other (poll_all-counting polls net f b)
]

-- After any answers of `recvfrom`, and in the PF_RING build after any answers of the rings, the counters
-- have grown, modulo 2^64, by the number of the frames that arrived and by their lengths; nothing else
-- changes. The raw socket build gives every frame to its caller, in order, cut to 9000 bytes, and counts what
-- it gives; a call of the other that does not return 1 counts nothing.
pub received-counting :
    (answers : List (Option (List ℕ))) (polls : List (ℕ × Rc)) (net : Net)
    → net.frames_received < 2 ^ 64
    → net.bytes_received < 2 ^ 64
    → (receive_all answers net ≡ (counting (map length (arrived answers)) net, arrived answers))
      × (poll_all polls net ≡ counting (polled polls) net)
received-counting answers polls net f b =
    (receive_all-counting answers net f b, poll_all-counting polls net f b)
