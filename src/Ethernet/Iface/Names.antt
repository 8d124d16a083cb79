-- ===== src/Ethernet/Iface/Names.antt =====
-- The interface that a name such as `dna:ethX@Y` stands for (socket/EthernetUtils.cpp).
use na62_farm_lib_networking.Base.{
  ℕ, zero, suc, ◌+◌, ◌≤◌, ◌<◌, ◌≡◌, ◌≢◌, refl, List, [], ◌∷◌, ◌++◌, none, some, ◌∙◌, true, arith,
  ltb, if◌then◌else◌, length, take, drop, u64, replicate, take-append, take_all, length-append,
}
use mathlib.Core.Option
use na62_farm_lib_networking.Ethernet.Iface.{
  npos, find_from, find, substr, strip_prefix, strip_queue, interface_name, Kernel, ifnamsiz,
  get_mac_of_interface, get_ip_of_interface,
}

-- The character does not occur.
abbrev pub Free : ℕ → List ℕ → Type 0
Free c [] = Unit
Free c (x ∷ s) = (x ≢ c) × Free c s

find_from-absent : (i c : ℕ) (s : List ℕ) → Free c s → find_from i c s ≡ npos
unfolding find_from
find_from-absent i c [] h = refl
find_from-absent i c (x ∷ s) h = ground (arith, find_from-absent (i + 1) c s)

find_from-found : (i c : ℕ) (s t : List ℕ) → Free c s → find_from i c (s ++ c ∷ t) ≡ i + length s
unfolding find_from
find_from-found i c [] t h = ground arith
find_from-found i c (x ∷ s) t h = ground (arith, find_from-found (i + 1) c s t)

strip_prefix-none : (s : List ℕ) → Free b':' s → length s < npos → strip_prefix s ≡ s
unfolding strip_prefix find substr
strip_prefix-none s h short = rw (find_from-absent 0 b':' s h) (take_all npos s (omega arith))

strip_prefix_at :
    (p : ℕ) (s t : List ℕ)
    → find_from 0 b':' s ≡ p
    → ltb 0 p ≡ true
    → u64 (p + 1) ≡ p + 1
    → drop (p + 1) s ≡ t
    → length t ≤ npos
    → strip_prefix s ≡ t
unfolding strip_prefix find substr
strip_prefix_at p s t e pos same rest short = rw (e, pos, same, rest) (take_all npos t short)

drop-after : (p c : ℕ) (s t : List ℕ) → length s ≡ p → drop (p + 1) (s ++ c ∷ t) ≡ t
drop-after zero c [] t e = refl
drop-after zero c (x ∷ s) t e = absurd (omega arith)
drop-after (suc p) c [] t e = absurd (omega arith)
drop-after (suc p) c (x ∷ s) t e = ground (arith, drop-after p c s t)

strip_prefix-some :
    (s t : List ℕ)
    → Free b':' s
    → 0 < length s
    → length s + length t + 1 < npos
    → strip_prefix (s ++ b':' ∷ t) ≡ t
strip_prefix-some s t h pos short =
    strip_prefix_at (length s) (s ++ b':' ∷ t) t (find_from-found 0 b':' s t h ∙ omega arith)
      (ground arith) (omega arith) (drop-after (length s) b':' s t refl) (omega arith)

strip_queue-none : (s : List ℕ) → Free b'@' s → length s < npos → strip_queue s ≡ s
unfolding strip_queue find substr
strip_queue-none s h short = rw (find_from-absent 0 b'@' s h) (take_all npos s (omega arith))

strip_queue_at :
    (p : ℕ) (s t : List ℕ)
    → find_from 0 b'@' s ≡ p
    → ltb 0 p ≡ true
    → take p s ≡ t
    → strip_queue s ≡ t
unfolding strip_queue find substr
strip_queue_at p s t e pos first = rw (e, pos) first

strip_queue-some : (s t : List ℕ) → Free b'@' s → 0 < length s → strip_queue (s ++ b'@' ∷ t) ≡ s
strip_queue-some s t h pos =
    strip_queue_at (length s) (s ++ b'@' ∷ t) s (find_from-found 0 b'@' s t h ∙ omega arith)
      (ground arith) (take-append (length s) s (b'@' ∷ t) refl)

Free-append : (c : ℕ) (s t : List ℕ) → Free c s → Free c t → Free c (s ++ t)
Free-append c [] t h k = k
Free-append c (x ∷ s) t h k = (h.0, Free-append c s t h.1 k)

-- With a driver, a name and a queue that hold neither `:` nor `@`, the first two not empty, each of
-- the formats name, driver:name, name@queue and driver:name@queue stands for the name.
pub interface_name_formats :
    (driver name queue : List ℕ)
    → Free b':' driver
    → Free b':' name
    → Free b'@' name
    → Free b':' queue
    → 0 < length driver
    → 0 < length name
    → length driver + length name + length queue + 2 < npos
    → (interface_name name ≡ name)
      × (interface_name (driver ++ b':' ∷ name) ≡ name)
      × (interface_name (name ++ b'@' ∷ queue) ≡ name)
      × (interface_name (driver ++ b':' ∷ (name ++ b'@' ∷ queue)) ≡ name)
unfolding interface_name
interface_name_formats driver name queue hd hn hn' hq pd pn short =
    let sized = length-append {0} name (b'@' ∷ queue) in
    (
      rw (strip_prefix-none name hn (omega arith)) (strip_queue-none name hn' (omega arith)),
      rw (strip_prefix-some driver name hd pd (omega arith))
          (strip_queue-none name hn' (omega arith)),
      rw
          (strip_prefix-none (name ++ b'@' ∷ queue)
            (Free-append b':' name (b'@' ∷ queue) hn ((omega arith), hq)) (omega (arith, sized)))
          (strip_queue-some name queue hn' pn),
      rw (strip_prefix-some driver (name ++ b'@' ∷ queue) hd pd (omega (arith, sized)))
          (strip_queue-some name queue hn' pn),
    )

-- For a card named driver:name@queue the MAC is the one that the kernel has for `name`, or zeros if
-- it has none; the request's name overflows when `name` has more than 15 characters. The IP address
-- is the kernel's answer for the first 15 characters of `name`, or what memory held before.
pub interface_requests :
    (kernel : Kernel) (left_over : ℕ) (driver name queue : List ℕ)
    → Free b':' driver
    → Free b':' name
    → Free b'@' name
    → Free b':' queue
    → 0 < length driver
    → 0 < length name
    → length driver + length name + length queue + 2 < npos
    → let iface = driver ++ b':' ∷ (name ++ b'@' ∷ queue) in
      (get_mac_of_interface kernel iface ≡ (
        if ltb (length name) ifnamsiz
        then some (take 6 (Option.get_or (kernel.siocgifhwaddr name) (replicate 14 0)))
        else none))
      × (get_ip_of_interface kernel left_over iface
          ≡ Option.get_or (kernel.siocgifaddr (take 15 name)) left_over)
unfolding get_mac_of_interface get_ip_of_interface
interface_requests kernel left_over driver name queue hd hn hn' hq pd pn short =
    let named = interface_name_formats driver name queue hd hn hn' hq pd pn short in
    (rw named.3, rw named.3)
