-- ===== src/Ethernet/Mac/RoundTrip.antt =====
-- A printed MAC address is read back by `string_to_mac` (socket/EthernetUtils.cpp).
use na62_farm_lib_networking.Base.{
  ℕ, zero, suc, ◌+◌, ◌-◌, ◌*◌, ◌==◌, ◌||◌, false, true, ◌∙◌, ◌/◌, ◌%◌, ◌<◌, ◌≡◌, refl, ap, List, [],
  ◌∷◌, ◌++◌, map, some, Bool, arith, ltb, if◌then◌else◌, length, u8, AreBytes,
}
use na62_farm_lib_networking.Ethernet.Mac.{
  hex_value, is_space, scan_colon, skip_space, scan_hex, sscanf_hex, string_to_mac,
}
use mathlib.Core.Path.{ap₂}

-- The format of the documentation, in upper or lower case.
abbrev pub hex_digit : Bool → ℕ → ℕ
hex_digit lower n = if ltb n 10 then n + b'0' else if lower then n - 10 + b'a' else n - 10 + b'A'

abbrev pub mac_text : Bool → List ℕ → List ℕ
mac_text lower [] = []
mac_text lower (b ∷ []) = hex_digit lower (b / 16) ∷ hex_digit lower (b % 16) ∷ []
mac_text lower (b ∷ b' ∷ bs) =
    hex_digit lower (b / 16) ∷ hex_digit lower (b % 16) ∷ b':' ∷ mac_text lower (b' ∷ bs)

-- What the scanner tests of a digit.
record IsDigit (c n : ℕ) : Type 0 where
  value : hex_value c ≡ some n
  not_space : is_space c ≡ false
  not_plus : (c == b'+') ≡ false
  not_minus : (c == b'-') ≡ false
  not_prefix : ((c == b'x') || (c == b'X')) ≡ false

hex_digit-IsDigit : (lower : Bool) (n : ℕ) → n < 16 → IsDigit (hex_digit lower n) n
unfolding hex_value is_space
hex_digit-IsDigit true n h = record {
  value = ground arith;
  not_space = ground arith;
  not_plus = ground arith;
  not_minus = ground arith;
  not_prefix = ground arith;
}
hex_digit-IsDigit false n h = record {
  value = ground arith;
  not_space = ground arith;
  not_plus = ground arith;
  not_minus = ground arith;
  not_prefix = ground arith;
}

scan_hex_digits :
    {c c' h l : ℕ} (rest : List ℕ)
    → IsDigit c h
    → IsDigit c' l
    → scan_hex (c ∷ c' ∷ rest) ≡ some (h * 16 + l, rest)
unfolding scan_hex skip_space
scan_hex_digits rest p q = ground arith

scan_hex_byte :
    (lower : Bool) (b : ℕ) (rest : List ℕ)
    → b < 256
    → scan_hex (hex_digit lower (b / 16) ∷ hex_digit lower (b % 16) ∷ rest) ≡ some (b, rest)
scan_hex_byte lower b rest h =
    scan_hex_digits rest (hex_digit-IsDigit lower (b / 16) (omega arith))
      (hex_digit-IsDigit lower (b % 16) (omega arith))
    ∙ ap (λ v. some (v, rest)) (omega arith)

sscanf_hex-mac_text :
    (lower : Bool) (n b : ℕ) (bs rest : List ℕ)
    → length bs ≡ n
    → AreBytes (b ∷ bs)
    → sscanf_hex n (mac_text lower (b ∷ bs) ++ rest) ≡ b ∷ bs
unfolding sscanf_hex scan_colon
sscanf_hex-mac_text lower zero b [] rest e h = rw (scan_hex_byte lower b rest h.0, sscanf_hex)
sscanf_hex-mac_text lower zero b (b' ∷ bs) rest e h = absurd (omega arith)
sscanf_hex-mac_text lower (suc n) b [] rest e h = absurd (omega arith)
sscanf_hex-mac_text lower (suc n) b (b' ∷ bs) rest e h =
    rw (scan_hex_byte lower b (b':' ∷ mac_text lower (b' ∷ bs) ++ rest) h.0, sscanf_hex)
      (ap (◌∷◌ b) (sscanf_hex-mac_text lower n b' bs rest (omega arith) h.1))

map-u8 : (bs : List ℕ) → AreBytes bs → map u8 bs ≡ bs
map-u8 [] h = refl
map-u8 (b ∷ bs) h = ap₂ ◌∷◌ (omega arith) (map-u8 bs h.1)

-- Six bytes printed as XX:XX:XX:XX:XX:XX, in either case and whatever text follows, are read back.
pub string_to_mac-mac_text :
    (lower : Bool) (mac rest : List ℕ)
    → length mac ≡ 6
    → AreBytes mac
    → string_to_mac (mac_text lower mac ++ rest) ≡ some mac
unfolding string_to_mac
string_to_mac-mac_text lower [] rest e h = absurd (omega arith)
string_to_mac-mac_text lower (b ∷ bs) rest e h =
    rw (sscanf_hex-mac_text lower 5 b bs rest (omega arith) h) (ground (arith, map-u8 (b ∷ bs) h))
