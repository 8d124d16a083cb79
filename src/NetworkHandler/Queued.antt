-- ===== src/NetworkHandler/Queued.antt =====
-- What the send queue holds: the frames themselves, read through their buffers.
use mathlib.Core.List.{map-append}
use na62_farm_lib_networking.Base.{
  ℕ, ◌≡◌, ◌∙◌, refl, ap, List, [], ◌∷◌, ◌++◌, map, Option, some, arith, length, take, ◌≤◌,
}
use mathlib.Core.Path.{ap₂}
use na62_farm_lib_networking.Memory.{Heap, DataContainer, new_array}
use na62_farm_lib_networking.Memory.Laws.{HeapIsValid, find-ge, read-new_array}
use na62_farm_lib_networking.NetworkHandler.{Net, async_send_frame, load}
use na62_farm_lib_networking.NetworkHandler.Safety.{IsLive, AreSafe, NetIsValid}

abbrev pub frame_of : Heap → DataContainer → Option (List ℕ)
frame_of h d = load h d.data_ d.length

abbrev pub queued : Heap → List DataContainer → List (Option (List ℕ))
queued h q = map (frame_of h) q

pub frame_of-new_array :
    (bytes : List ℕ) (h : Heap) (d : DataContainer)
    → HeapIsValid h
    → IsLive h d
    → frame_of (new_array bytes h).1 d ≡ frame_of h d
frame_of-new_array bytes h d v l = ground (arith, find-ge d.data_ h.next h.cells v)

pub queued-new_array :
    (bytes : List ℕ) (h : Heap) (q : List DataContainer)
    → HeapIsValid h
    → AreSafe h q
    → queued (new_array bytes h).1 q ≡ queued h q
queued-new_array bytes h [] v s = refl
queued-new_array bytes h (d ∷ q) v s =
    ap₂ ◌∷◌ (frame_of-new_array bytes h d v s.0) (queued-new_array bytes h q v s.2)

pub frame_of-new :
    (bytes : List ℕ) (h : Heap) (d : DataContainer)
    → d.data_ ≡ (new_array bytes h).0
    → d.length ≤ length bytes
    → frame_of (new_array bytes h).1 d ≡ some (take d.length bytes)
frame_of-new bytes h d fresh fits = ground (arith, read-new_array bytes h)

-- What is queued of a new buffer stands behind what was queued before, unchanged.
pub queued-async_send_frame :
    (net : Net) (bytes : List ℕ) (d : DataContainer)
    → NetIsValid net
    → d.data_ ≡ (new_array bytes net.heap).0
    → d.length ≤ length bytes
    → let net' = async_send_frame d (record net { heap = (new_array bytes net.heap).1 }) in
      queued net'.heap net'.async_send_data
      ≡ queued net.heap net.async_send_data ++ some (take d.length bytes) ∷ []
unfolding async_send_frame
queued-async_send_frame net bytes d v fresh fits =
    map-append (frame_of (new_array bytes net.heap).1) net.async_send_data (d ∷ [])
    ∙ ap₂ ◌++◌ (queued-new_array bytes net.heap net.async_send_data v.heap_valid v.queue_safe)
        (ap (λ f. f ∷ []) (frame_of-new bytes net.heap d fresh fits))
