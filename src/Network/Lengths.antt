-- ===== src/Network/Lengths.antt =====
-- The length fields that `set_payload_size` fills (structs/Network.h).
use na62_farm_lib_networking.Base.{ℕ, ◌+◌, ◌%◌, ◌^◌, ◌≤◌, ◌≡◌, ◌↔◌, arith, ntohs}
use na62_farm_lib_networking.Network.{UdpHdr, set_payload_size}

-- The two lengths on the wire are those of the payload and the headers before it, cut to 16 bits;
-- the IP length is the true one exactly when the payload has at most 65507 bytes.
pub set_payload_size_fields :
    (h : UdpHdr) (n : ℕ)
    → (ntohs (set_payload_size h n).udp.len ≡ (8 + n) % 2 ^ 16)
      × (ntohs (set_payload_size h n).ip.tot_len ≡ (28 + n) % 2 ^ 16)
      × ((ntohs (set_payload_size h n).ip.tot_len ≡ 28 + n) ↔ (n ≤ 65507))
unfolding set_payload_size
set_payload_size_fields h n = (omega arith, omega arith, (λ e. omega arith, λ e. omega arith))
