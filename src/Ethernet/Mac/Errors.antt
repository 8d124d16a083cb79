-- ===== src/Ethernet/Mac/Errors.antt =====
-- What `string_to_mac` accepts (socket/EthernetUtils.cpp).
use na62_farm_lib_networking.Base.{
  ℕ, zero, suc, ◌+◌, ◌≤◌, ◌≡◌, refl, ap, List, [], ◌∷◌, map, some, arith, ◌==◌, if◌then◌else◌,
  length, u8, AreBytes, Option-cases, inl, inr,
}
use na62_farm_lib_networking.Ethernet.Mac.{
  scan_digits, scan_colon, skip_space, scan_hex, sscanf_hex, string_to_mac,
}

abbrev pub colons : List ℕ → ℕ
colons [] = 0
colons (c ∷ s) = (if c == b':' then 1 else 0) + colons s

colons-skip_space : (s : List ℕ) → colons (skip_space s) ≤ colons s
unfolding skip_space
colons-skip_space [] = omega arith
colons-skip_space (c ∷ s) = ground (arith, colons-skip_space s)

colons-scan_digits :
    (s : List ℕ) {v : ℕ} {rest : List ℕ} → scan_digits s ≡ some (v, rest) → colons rest ≤ colons s
unfolding scan_digits
colons-scan_digits [] e = ground arith
colons-scan_digits (c ∷ []) e = ground arith
colons-scan_digits (c ∷ c' ∷ s) e = ground arith

colons-scan_hex :
    (s : List ℕ) {v : ℕ} {rest : List ℕ} → scan_hex s ≡ some (v, rest) → colons rest ≤ colons s
unfolding scan_hex
colons-scan_hex s e = omega (arith, colons-scan_digits (skip_space s) e, colons-skip_space s)

colons-scan_colon :
    (s : List ℕ) {next : List ℕ} → scan_colon s ≡ some next → colons s ≡ 1 + colons next
unfolding scan_colon
colons-scan_colon [] e = ground arith
colons-scan_colon (c ∷ s) e = ground arith

-- Each value after the first needs a colon.
length-sscanf_hex : (n : ℕ) (s : List ℕ) → length (sscanf_hex n s) ≤ 1 + colons s
unfolding sscanf_hex
length-sscanf_hex zero s = ground arith
length-sscanf_hex (suc n) s = elim (Option-cases (scan_hex s)) [
  | inl e ↦ rw (e, sscanf_hex) (omega arith)
  | inr ((v, rest), e) ↦
      rw (e, sscanf_hex)
        (elim (Option-cases (scan_colon rest)) [
          | inl e' ↦ rw e' (omega arith)
          | inr (next, e') ↦ rw e' (
              omega
                (arith, colons-scan_hex s e, colons-scan_colon rest e', length-sscanf_hex n next))
        ])
]

map-u8-AreBytes : (vs : List ℕ) → AreBytes (map u8 vs)
map-u8-AreBytes [] = tt
map-u8-AreBytes (v ∷ vs) = (omega arith, map-u8-AreBytes vs)

length-map : (vs : List ℕ) → length (map u8 vs) ≡ length vs
length-map [] = refl
length-map (v ∷ vs) = ap suc (length-map vs)

-- Every address that is accepted gives six bytes, and had at least five colons.
pub string_to_mac-some :
    (address mac : List ℕ)
    → string_to_mac address ≡ some mac
    → (length mac ≡ 6) × AreBytes mac × (5 ≤ colons address)
unfolding string_to_mac
string_to_mac-some address mac e = ground (
  arith,
  length-sscanf_hex 5 address,
  length-map (sscanf_hex 5 address),
  map-u8-AreBytes (sscanf_hex 5 address),
)
