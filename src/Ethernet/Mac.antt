-- ===== src/Ethernet/Mac.antt =====
-- `EthernetUtils::StringToMAC` (socket/EthernetUtils.cpp) over character codes.
--
-- `scan_hex` is the conversion `%02X` of glibc's `sscanf`: white space, then at most two
-- characters, among them a sign or the prefix `0x`.
pub mod RoundTrip
pub mod Errors
mod Tests
use na62_farm_lib_networking.Base.{
  ℕ, zero, suc, ◌+◌, ◌-◌, ◌*◌, ◌/◌, ◌%◌, ◌^◌, ◌<◌, ◌≡◌, refl, ap, List, [], ◌∷◌, ◌++◌, map, Option,
  none, some, Bool, true, false, ◌&&◌, ◌||◌, arith, ltb, leb, ◌==◌, if◌then◌else◌, length, u8,
  Option-cases, inl, inr,
}

pub hex_value : ℕ → Option ℕ
hex_value c =
    if leb b'0' c && leb c b'9'
    then some (c - b'0')
    else if leb b'A' c && leb c b'F'
    then some (c - b'A' + 10)
    else if leb b'a' c && leb c b'f'
    then some (c - b'a' + 10)
    else none

is_space : ℕ → Bool
is_space c = c == 32 || (leb 9 c && leb c 13)

pub skip_space : List ℕ → List ℕ
skip_space [] = []
skip_space (c ∷ s) = let rest = skip_space s in if is_space c then rest else c ∷ s

-- After a sign one character is left; a negative value wraps to 32 bits.
scan_signed : (ℕ → ℕ) → List ℕ → Option (ℕ × List ℕ)
scan_signed sign [] = none
scan_signed sign (c ∷ s) = elim (hex_value c) [ none ↦ none | some d ↦ some (sign d, s) ]

scan_second : ℕ → ℕ → List ℕ → Option (ℕ × List ℕ)
scan_second c d [] = some (d, [])
scan_second c d (c' ∷ s) =
    if c == b'0' && (c' == b'x' || c' == b'X')
    then some (0, s)
    else elim (hex_value c') [ none ↦ some (d, c' ∷ s) | some d' ↦ some (d * 16 + d', s) ]

scan_digits : List ℕ → Option (ℕ × List ℕ)
unfolding scan_signed scan_second
scan_digits [] = none
scan_digits (c ∷ s) =
    if c == b'+'
    then scan_signed (λ d. d) s
    else if c == b'-'
    then scan_signed (λ d. (2 ^ 32 - d) % 2 ^ 32) s
    else elim (hex_value c) [ none ↦ none | some d ↦ scan_second c d s ]

pub scan_hex : List ℕ → Option (ℕ × List ℕ)
unfolding scan_digits
scan_hex s = scan_digits (skip_space s)

-- The literal `:` of the format.
scan_colon : List ℕ → Option (List ℕ)
scan_colon [] = none
scan_colon (c ∷ s) = if c == b':' then some s else none

-- The values converted by a format of `n + 1` fields, up to the first that does not match.
pub sscanf_hex : ℕ → List ℕ → List ℕ
sscanf_hex zero s = elim (scan_hex s) [ none ↦ [] | some (v, rest) ↦ v ∷ [] ]
sscanf_hex (suc n) s = elim (scan_hex s) [
  | none ↦ []
  | some (v, rest) ↦ elim (scan_colon rest) [ none ↦ v ∷ [] | some next ↦ v ∷ sscanf_hex n next ]
]

-- `none` is the null pointer. The values are stored into `char`s.
unfoldable pub string_to_mac : List ℕ → Option (List ℕ)
string_to_mac address =
    let values = sscanf_hex 5 address in if length values == 6 then some (map u8 values) else none
