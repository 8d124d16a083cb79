-- ===== src/Ethernet/Mac/Tests.antt =====
-- Runs and examples for `StringToMAC` (socket/EthernetUtils.cpp).
use na62_farm_lib_networking.Base.{
  codes, ℕ, ◌≤◌, ◌<◌, ◌≡◌, refl, List, [], ◌∷◌, ◌++◌, none, some, false, arith, length,
}
use na62_farm_lib_networking.Ethernet.Mac.{
  hex_value, skip_space, is_space, scan_hex, scan_colon, sscanf_hex, string_to_mac,
}
use na62_farm_lib_networking.Ethernet.Mac.RoundTrip.{mac_text, string_to_mac-mac_text}
use na62_farm_lib_networking.Ethernet.Mac.Errors.{colons, string_to_mac-some}

abbrev gateway : List ℕ
gateway = 0x00 ∷ 0x1b ∷ 0x21 ∷ 0xa0 ∷ 0x0f ∷ 0xff ∷ []

reads_gateway : string_to_mac (codes "00:1B:21:A0:0F:FF") ≡ some gateway
unfolding string_to_mac sscanf_hex scan_hex scan_colon skip_space is_space hex_value
reads_gateway = refl

refuses_dashes : string_to_mac (codes "00-1B-21-A0-0F-FF") ≡ none
unfolding string_to_mac sscanf_hex scan_hex scan_colon skip_space is_space hex_value
refuses_dashes = refl

string_to_mac-mac_text_example : string_to_mac (mac_text false gateway ++ b'!' ∷ []) ≡ some gateway
string_to_mac-mac_text_example = string_to_mac-mac_text false gateway (b'!' ∷ []) refl (omega arith)

string_to_mac-some_example :
    (length gateway ≡ 6)
    × ((0x00 < 256)
        × ((0x1b < 256)
            × ((0x21 < 256) × ((0xa0 < 256) × ((0x0f < 256) × ((0xff < 256) × Unit {0}))))))
    × (5 ≤ colons (codes "00:1B:21:A0:0F:FF"))
unfolding string_to_mac sscanf_hex scan_hex scan_colon skip_space is_space hex_value
string_to_mac-some_example = string_to_mac-some (codes "00:1B:21:A0:0F:FF") gateway refl
