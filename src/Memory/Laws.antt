-- ===== src/Memory/Laws.antt =====
-- Live blocks: an address stays below the next one to be handed out, and has one entry.
use na62_farm_lib_networking.Base.{
  ℕ, ◌≤◌, ◌<◌, ◌≡◌, ◌≢◌, List, [], ◌∷◌, none, some, refl, ◌==◌, if◌then◌else◌, arith,
}
use na62_farm_lib_networking.Memory.{Heap, find, remove, new_array, read, delete_array}

-- Addresses fall along the list, from below the bound.
abbrev pub Below : ℕ → List (ℕ × List ℕ) → Type 0
Below n [] = Unit {0}
Below n ((a, bytes) ∷ cells) = (a < n) × Below a cells

pub Below-mono : (m n : ℕ) (cells : List (ℕ × List ℕ)) → m ≤ n → Below m cells → Below n cells
Below-mono m n [] h b = tt
Below-mono m n (c ∷ cells) h b = (omega arith, b.1)

pub find-ge : (a n : ℕ) (cells : List (ℕ × List ℕ)) → Below n cells → n ≤ a → find a cells ≡ none
find-ge a n [] b h = refl
find-ge a n ((c, bytes) ∷ cells) b h = ground (arith, find-ge a c cells b.1)

pub find-remove_self :
    (a n : ℕ) (cells : List (ℕ × List ℕ)) → Below n cells → find a (remove a cells) ≡ none
find-remove_self a n [] b = refl
find-remove_self a n ((c, bytes) ∷ cells) b =
    ground (arith, find-ge a c cells b.1, find-remove_self a c cells b.1)

pub find-remove_ne :
    (a a' : ℕ) (cells : List (ℕ × List ℕ)) → a ≢ a' → find a (remove a' cells) ≡ find a cells
find-remove_ne a a' [] ne = refl
find-remove_ne a a' ((c, bytes) ∷ cells) ne = ground (arith, find-remove_ne a a' cells ne)

pub remove-Below : (a n : ℕ) (cells : List (ℕ × List ℕ)) → Below n cells → Below n (remove a cells)
remove-Below a n [] b = tt
remove-Below a n ((c, bytes) ∷ cells) b =
    ground (arith, remove-Below a c cells b.1, Below-mono c n cells)

abbrev pub HeapIsValid : Heap → Type 0
HeapIsValid h = Below h.next h.cells

pub read-new_array :
    (bytes : List ℕ) (h : Heap) → read (new_array bytes h).1 (new_array bytes h).0 ≡ some bytes
read-new_array bytes h = ground arith

pub new_array-IsValid :
    (bytes : List ℕ) (h : Heap) → HeapIsValid h → HeapIsValid (new_array bytes h).1
new_array-IsValid bytes h v = (omega arith, v)

pub delete_array-IsValid :
    (a : ℕ) (h : Heap) {h' : Heap} → delete_array a h ≡ some h' → HeapIsValid h → HeapIsValid h'
unfolding delete_array
delete_array-IsValid a h e v = ground (arith, remove-Below a h.next h.cells v)

-- A block is gone once it is freed, and the others stay.
pub read-delete_array :
    (a b : ℕ) (h : Heap) {h' : Heap}
    → HeapIsValid h
    → delete_array a h ≡ some h'
    → read h' b ≡ (if b == a then none else read h b)
unfolding delete_array
read-delete_array a b h v e =
    ground (arith, find-remove_self a h.next h.cells v, find-remove_ne b a h.cells)
