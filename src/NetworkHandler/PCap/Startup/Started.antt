-- ===== src/NetworkHandler/PCap/Startup/Started.antt =====
-- The static members after the constructor of the raw socket build (socket/PCapHandler.cpp).
use mathlib.Core.Option
use na62_farm_lib_networking.Base.{
  ℕ, ◌≡◌, refl, List, Option, none, some, arith, length, take, length-take, replicate,
}
use na62_farm_lib_networking.Ethernet.Frames.{MyAddress}
use na62_farm_lib_networking.Ethernet.Iface.{Kernel, interface_name, get_mac_of_interface}
use na62_farm_lib_networking.NetworkHandler.{Net}
use na62_farm_lib_networking.NetworkHandler.Safety.{NetIsValid}
use na62_farm_lib_networking.NetworkHandler.PCap.{unset_members}
use na62_farm_lib_networking.NetworkHandler.PCap.Startup.{
  Answers, LeftOver, End, new_network_handler,
}

-- The kernel gives a hardware address as the 14 bytes of `sa_data`.
abbrev pub GivesSaData : Kernel → Type 0
GivesSaData kernel =
    (name bytes : List ℕ) → kernel.siocgifhwaddr name ≡ some bytes → length bytes ≡ 14

-- The members once the constructor has set the addresses.
abbrev pub constructed : List ℕ → MyAddress → Net
constructed garbage me = record (unset_members garbage) { my_address = me }

sa_data :
    (r : Option (List ℕ))
    → ((bytes : List ℕ) → r ≡ some bytes → length bytes ≡ 14)
    → length (take 6 (Option.get_or r (replicate 14 0))) ≡ 6
sa_data none h = refl
sa_data (some bytes) h = let l = h bytes refl in omega (arith, length-take 6 bytes)

mac_size :
    (kernel : Kernel) (iface mac : List ℕ)
    → GivesSaData kernel
    → get_mac_of_interface kernel iface ≡ some mac
    → length mac ≡ 6
unfolding get_mac_of_interface
mac_size kernel iface mac h e =
    ground (arith, sa_data (kernel.siocgifhwaddr (interface_name iface)) (h (interface_name iface)))

constructed_mac :
    (a : Answers) (left : LeftOver) (device_name : List ℕ) (kernel : Kernel) (left_over : ℕ)
    (me : MyAddress) (end : End)
    → new_network_handler a left device_name kernel left_over ≡ some (me, end)
    → get_mac_of_interface kernel device_name ≡ some me.my_mac
unfolding new_network_handler
constructed_mac a left device_name kernel left_over me end e = ground arith

-- When the constructor returns, and the kernel gives hardware addresses as the 14 bytes of `sa_data`, the
-- network state is valid: this machine's MAC has six bytes, and the queue is empty.
pub new_network_handler-NetIsValid :
    (a : Answers) (left : LeftOver) (device_name : List ℕ) (kernel : Kernel) (left_over : ℕ)
    (garbage : List ℕ) (me : MyAddress) (end : End)
    → GivesSaData kernel
    → new_network_handler a left device_name kernel left_over ≡ some (me, end)
    → NetIsValid (constructed garbage me)
new_network_handler-NetIsValid a left device_name kernel left_over garbage me end h e = record {
  heap_valid = (omega arith, tt);
  queue_safe = tt;
  mac_size =
      mac_size kernel device_name me.my_mac h
        (constructed_mac a left device_name kernel left_over me end e);
}
