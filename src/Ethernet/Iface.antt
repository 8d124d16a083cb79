-- ===== src/Ethernet/Iface.antt =====
-- `GetMacOfInterface` and `GetIPOfInterface` (socket/EthernetUtils.cpp). The kernel's answers to
-- the two `ioctl` requests are parameters.
pub mod Names
use mathlib.Core.Option
use na62_farm_lib_networking.Base.{
  ℕ, zero, suc, ◌+◌, ◌-◌, ◌*◌, ◌%◌, ◌^◌, ◌≤◌, ◌<◌, ◌≡◌, ◌≢◌, refl, ap, List, [], ◌∷◌, ◌++◌, Option,
  none, some, Bool, true, false, ◌∙◌, arith, ltb, ◌==◌, if◌then◌else◌, length, take, drop,
  replicate, u64, drop-append, take-append, take_all, length-append,
}

-- `std::string::npos`, the largest `size_t`.
abbrev pub npos : ℕ
npos = 2 ^ 64 - 1

find_from : ℕ → ℕ → List ℕ → ℕ
find_from i c [] = npos
find_from i c (x ∷ s) = if x == c then i else find_from (i + 1) c s

-- `s.find(c)`
unfoldable pub find : ℕ → List ℕ → ℕ
unfolding find_from
find c s = find_from 0 c s

-- `s.substr(pos, n)`; the text is shorter than `npos`.
unfoldable pub substr : ℕ → ℕ → List ℕ → List ℕ
substr pos n s = take n (drop pos s)

unfoldable pub strip_prefix : List ℕ → List ℕ
strip_prefix iface =
    if ltb 0 (find b':' iface) then substr (u64 (find b':' iface + 1)) npos iface else iface

unfoldable pub strip_queue : List ℕ → List ℕ
strip_queue iface = if ltb 0 (find b'@' iface) then substr 0 (find b'@' iface) iface else iface

unfoldable pub interface_name : List ℕ → List ℕ
interface_name iface = strip_queue (strip_prefix iface)

-- What the kernel answers for an interface's name: the 14 bytes of `sa_data`, and the address.
pub record Kernel : Type 0 where
  pub siocgifhwaddr : List ℕ → Option (List ℕ)
  pub siocgifaddr : List ℕ → Option ℕ

abbrev pub ifnamsiz : ℕ
ifnamsiz = 16

-- The request is zeroed first, so a refused one gives zeros. `strcpy` has no bound: `none` is a name
-- that, with its terminator, does not fit `ifr_name`.
unfoldable pub get_mac_of_interface : Kernel → List ℕ → Option (List ℕ)
get_mac_of_interface kernel iface =
    let name = interface_name iface in
    if ltb (length name) ifnamsiz
    then some (take 6 (Option.get_or (kernel.siocgifhwaddr name) (replicate 14 0)))
    else none

-- The request is not initialised: `left_over` is what a refused one gives. The name is cut.
unfoldable pub get_ip_of_interface : Kernel → ℕ → List ℕ → ℕ
get_ip_of_interface kernel left_over iface =
    Option.get_or (kernel.siocgifaddr (take (ifnamsiz - 1) (interface_name iface))) left_over
