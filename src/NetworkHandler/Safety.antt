-- ===== src/NetworkHandler/Safety.antt =====
-- Memory safety of the send queue: what waits in it can be read, and freed once.
use na62_farm_lib_networking.Base.{
  ℕ, take, length-take, ◌≤◌, ◌<◌, ◌≡◌, ◌≢◌, ◌⊎◌, sym, refl, List, [], ◌∷◌, ◌++◌, none, some, true,
  false, ◌||◌, ◌&&◌, arith, ◌==◌, if◌then◌else◌, length, Bool-cases, inl, inr,
}
use na62_farm_lib_networking.Memory.{Heap, DataContainer, read, new_array, delete_array, remove}
use na62_farm_lib_networking.Memory.Laws.{
  HeapIsValid, find-ge, new_array-IsValid, delete_array-IsValid, read-delete_array, read-new_array,
}
use na62_farm_lib_networking.NetworkHandler.{Net, async_send_frame, load, free_frame}

abbrev pub IsLive : Heap → DataContainer → Type 0
IsLive h d = (bytes : List ℕ) × (read h d.data_ ≡ some bytes) × (d.length ≤ length bytes)

-- Two frames of which one is freed after it is sent have different buffers.
abbrev pub IsApart : DataContainer → DataContainer → Type 0
IsApart d e = ((d.owner_may_free_data || e.owner_may_free_data) ≡ false) ⊎ (d.data_ ≢ e.data_)

pub IsApart-sym : (d e : DataContainer) → IsApart d e → IsApart e d
IsApart-sym d e (inl kept) = inl (ground arith)
IsApart-sym d e (inr ne) = inr (λ same. ne (sym same))

pub freed-IsApart :
    (d e : DataContainer) → d.owner_may_free_data ≡ true → IsApart d e → d.data_ ≢ e.data_
freed-IsApart d e own (inl kept) = absurd (ground arith)
freed-IsApart d e own (inr ne) = ne

abbrev pub AllApart : DataContainer → List DataContainer → Type 0
AllApart d [] = Unit
AllApart d (e ∷ q) = IsApart d e × AllApart d q

abbrev pub AreSafe : Heap → List DataContainer → Type 0
AreSafe h [] = Unit
AreSafe h (d ∷ q) = IsLive h d × AllApart d q × AreSafe h q

pub record NetIsValid (net : Net) : Type 0 where
  pub heap_valid : HeapIsValid net.heap
  pub queue_safe : AreSafe net.heap net.async_send_data
  pub mac_size : length net.my_address.my_mac ≡ 6

pub IsLive-lt : (h : Heap) (d : DataContainer) → HeapIsValid h → IsLive h d → d.data_ < h.next
IsLive-lt h d v l = ground (arith, find-ge d.data_ h.next h.cells v)

pub new_array-IsLive :
    (bytes : List ℕ) (h : Heap) (d : DataContainer)
    → HeapIsValid h
    → IsLive h d
    → IsLive (new_array bytes h).1 d
new_array-IsLive bytes h d v l = (l.0, ground (arith, IsLive-lt h d v l), l.2)

pub new_array-AreSafe :
    (bytes : List ℕ) (h : Heap) (q : List DataContainer)
    → HeapIsValid h
    → AreSafe h q
    → AreSafe (new_array bytes h).1 q
new_array-AreSafe bytes h [] v s = tt
new_array-AreSafe bytes h (d ∷ q) v s =
    (new_array-IsLive bytes h d v s.0, s.1, new_array-AreSafe bytes h q v s.2)

pub AllApart-push :
    (d e : DataContainer) (q : List DataContainer)
    → AllApart d q
    → IsApart d e
    → AllApart d (q ++ e ∷ [])
AllApart-push d e [] s a = (a, tt)
AllApart-push d e (f ∷ q) s a = (s.0, AllApart-push d e q s.1 a)

-- A frame in a block that is newer than all those waiting joins the queue.
pub AreSafe-push :
    (h : Heap) (q : List DataContainer) (e : DataContainer)
    → HeapIsValid h
    → AreSafe h q
    → IsLive h e
    → AllApart e q
    → AreSafe h (q ++ e ∷ [])
AreSafe-push h [] e v s l a = (l, tt, tt)
AreSafe-push h (d ∷ q) e v s l a =
    (s.0, AllApart-push d e q s.1 (IsApart-sym e d a.0), AreSafe-push h q e v s.2 l a.1)

pub newer-AllApart :
    (h : Heap) (e : DataContainer) (q : List DataContainer)
    → HeapIsValid h
    → AreSafe h q
    → e.data_ ≡ h.next
    → AllApart e q
newer-AllApart h e [] v s n = tt
newer-AllApart h e (d ∷ q) v s n =
    (inr (λ same. omega (arith, IsLive-lt h d v s.0)), newer-AllApart h e q v s.2 n)

-- `new char[…]` and `AsyncSendFrame` of the new buffer.
pub async_send_frame-NetIsValid :
    (net : Net) (bytes : List ℕ) (d : DataContainer)
    → NetIsValid net
    → d.data_ ≡ (new_array bytes net.heap).0
    → d.length ≤ length bytes
    → NetIsValid (async_send_frame d (record net { heap = (new_array bytes net.heap).1 }))
unfolding async_send_frame
async_send_frame-NetIsValid net bytes d v fresh fits = record {
  heap_valid = new_array-IsValid bytes net.heap v.heap_valid;
  queue_safe =
      AreSafe-push (new_array bytes net.heap).1 net.async_send_data d
        (new_array-IsValid bytes net.heap v.heap_valid)
        (new_array-AreSafe bytes net.heap net.async_send_data v.heap_valid v.queue_safe)
        (bytes, ground (arith, read-new_array bytes net.heap), fits)
        (newer-AllApart net.heap d net.async_send_data v.heap_valid v.queue_safe fresh);
  mac_size = v.mac_size;
}

-- Freeing one buffer leaves the frames that are apart from it.
freed-AreSafe :
    (h h' : Heap) (d : DataContainer) (q : List DataContainer)
    → HeapIsValid h
    → d.owner_may_free_data ≡ true
    → delete_array d.data_ h ≡ some h'
    → AllApart d q
    → AreSafe h q
    → AreSafe h' q
freed-AreSafe h h' d [] v own e a s = tt
freed-AreSafe h h' d (f ∷ q) v own e a s = (
  (
    s.0.0,
    ground (arith, read-delete_array d.data_ f.data_ h v e, freed-IsApart d f own a.0),
    s.0.2,
  ),
  s.1,
  freed-AreSafe h h' d q v own e a.1 s.2,
)

delete_array-some :
    (a : ℕ) (h : Heap) {bytes : List ℕ}
    → read h a ≡ some bytes
    → delete_array a h ≡ some (record h { cells = remove a h.cells })
unfolding delete_array
delete_array-some a h e = ground arith

-- The buffer at the head of a safe queue can be freed, once it is out of the queue; the others keep
-- what they hold.
pub free_frame-some :
    (net : Net) (d : DataContainer) (q : List DataContainer)
    → HeapIsValid net.heap
    → AreSafe net.heap (d ∷ q)
    → (h : Heap) × (free_frame d net ≡ some (record net { heap = h }))
      × HeapIsValid h
      × AreSafe h q
      × ((a : ℕ)
          → read h a ≡ (if d.owner_may_free_data && a == d.data_ then none else read net.heap a))
free_frame-some net d q v s = elim (Bool-cases d.owner_may_free_data) [
  | inl own ↦
      let h : Heap = record net.heap { cells = remove d.data_ net.heap.cells } in
      let e : delete_array d.data_ net.heap ≡ some h = delete_array-some d.data_ net.heap s.0.1 in
      (
        h,
        rw (own, e) refl,
        delete_array-IsValid d.data_ net.heap e v,
        freed-AreSafe net.heap h d q v own e s.1 s.2,
        λ a. rw own (read-delete_array d.data_ a net.heap v e),
      )
  | inr kept ↦ (net.heap, rw kept refl, v, s.2, λ a. rw kept refl)
]

-- The frame at the head of a safe queue can be read.
pub load-some :
    (h : Heap) (d : DataContainer)
    → IsLive h d
    → (frame : List ℕ) × (load h d.data_ d.length ≡ some frame) × (length frame ≡ d.length)
load-some h d (bytes, e, fits) = (
  take d.length bytes,
  rw (e, load) (ground arith),
  omega (arith, length-take {0} d.length bytes),
)
