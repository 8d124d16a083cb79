-- ===== src/Memory.antt =====
-- Memory of `new char[n]` and `delete[]`, and the container that hands a buffer on.
--
-- `DataContainer` (structs/DataContainer.h of the library na62-farm-lib, not part of this
-- repository) has the three members that this code names.
pub mod Laws
use na62_farm_lib_networking.Base.{
  ℕ, suc, List, [], ◌∷◌, Option, none, some, Bool, ◌==◌, if◌then◌else◌,
}

-- A live block has an entry. An address is never handed out twice.
pub record Heap : Type 0 where
  pub next : ℕ
  pub cells : List (ℕ × List ℕ)

pub record DataContainer : Type 0 where
  pub data_ : ℕ
  pub length : ℕ
  pub owner_may_free_data : Bool

abbrev pub find : ℕ → List (ℕ × List ℕ) → Option (List ℕ)
find a [] = none
find a ((b, bytes) ∷ cells) = if a == b then some bytes else find a cells

abbrev pub remove : ℕ → List (ℕ × List ℕ) → List (ℕ × List ℕ)
remove a [] = []
remove a ((b, bytes) ∷ cells) = if a == b then cells else (b, bytes) ∷ remove a cells

abbrev pub new_array : List ℕ → Heap → ℕ × Heap
new_array bytes h = (h.next, record { next = suc h.next; cells = (h.next, bytes) ∷ h.cells })

abbrev pub read : Heap → ℕ → Option (List ℕ)
read h a = find a h.cells

-- `none` is a free of what is not live, a double free for one.
unfoldable pub delete_array : ℕ → Heap → Option Heap
delete_array a h = elim (find a h.cells) [
  | none ↦ none
  | some _ ↦ some (record h { cells = remove a h.cells })
]
