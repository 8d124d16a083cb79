-- ===== src/Ethernet/Ip.antt =====
-- `ipToString` (socket/EthernetUtils.h): `inet_ntop` of an IPv4 address.
use na62_farm_lib_networking.Base.{
  ℕ, ◌+◌, ◌/◌, ◌%◌, ◌≤◌, List, ◌∷◌, ◌++◌, arith, length, length-append, pos, int_text,
  length-int_text,
}

-- The numbers of the four bytes, as they lie in memory, with dots between them.
unfoldable pub ip_to_string : ℕ → List ℕ
ip_to_string ip =
    int_text (pos (ip % 256))
    ++ b'.'
      ∷ (int_text (pos (ip / 256 % 256))
          ++ b'.'
            ∷ (int_text (pos (ip / 256 / 256 % 256))
                ++ b'.' ∷ int_text (pos (ip / 256 / 256 / 256 % 256))))

-- The text and its terminator fit the buffer of 16 bytes, for every address.
pub length-ip_to_string : (ip : ℕ) → length (ip_to_string ip) + 1 ≤ 16
unfolding ip_to_string
length-ip_to_string ip =
    let a = int_text (pos (ip % 256)) in
    let b = int_text (pos (ip / 256 % 256)) in
    let c = int_text (pos (ip / 256 / 256 % 256)) in
    let d = int_text (pos (ip / 256 / 256 / 256 % 256)) in
    omega (
      arith,
      length-append {0} a (b'.' ∷ (b ++ b'.' ∷ (c ++ b'.' ∷ d))),
      length-append {0} b (b'.' ∷ (c ++ b'.' ∷ d)),
      length-append {0} c (b'.' ∷ d),
      length-int_text (ip % 256) (omega arith),
      length-int_text (ip / 256 % 256) (omega arith),
      length-int_text (ip / 256 / 256 % 256) (omega arith),
      length-int_text (ip / 256 / 256 / 256 % 256) (omega arith),
    )
