-- ===== src/Network/Tests.antt =====
-- Runs and examples for structs/Network.h.
use na62_farm_lib_networking.Base.{◌≡◌, refl, htons}
use na62_farm_lib_networking.Network.{UdpHdr, zero_udp_hdr, get_fragment_offset_in_bytes}

-- Don't-fragment is clear, more fragments is set, and the offset is 185 words.
abbrev middle : UdpHdr
middle = record zero_udp_hdr { ip = record zero_udp_hdr.ip { frag_off = htons 0x20b9 } }

middle_offset : get_fragment_offset_in_bytes middle ≡ 1480
unfolding get_fragment_offset_in_bytes
middle_offset = refl
