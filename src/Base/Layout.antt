-- ===== src/Base/Layout.antt =====
-- Packed structs as strings of bytes: how the fields follow one another in memory.
use mathlib.Core.Equiv.{IsEquiv, iso_to_equiv}
use mathlib.Core.HLevel.{Σ_prop_path, ×_prop}
use mathlib.Core.List.{List, [], ◌∷◌, ◌++◌}
use mathlib.Core.Path.{◌≡◌, ◌∙◌, refl, sym, ap, ap₂, subst}
use native.Mathlib.Omega.{pow_step}
use native.Mathlib.Nat.{ℕ_set}
use native.Mathlib.Bridge.{le_prop}
use na62_farm_lib_networking.Base.{
  ℕ, zero, suc, ◌+◌, ◌*◌, ◌/◌, ◌%◌, ◌^◌, ◌<◌, u8, arith, length, take, drop, length-append,
  length-take, length-drop, take-append, drop-append, take-append-drop, le_bytes, AreBytes,
  length-le_bytes, le_bytes-AreBytes,
}

-- What the host reads from `k` bytes, the lowest first.
pub read_le : ℕ → List ℕ → ℕ
read_le zero bytes = 0
read_le (suc k) [] = 0
read_le (suc k) (b ∷ bytes) = b + 256 * read_le k bytes

read_le-le_bytes : (k v : ℕ) → v < 256 ^ k → read_le k (le_bytes k v) ≡ v
unfolding read_le
read_le-le_bytes zero v h = omega arith
read_le-le_bytes (suc k) v h =
    omega (arith, read_le-le_bytes k (v / 256) (omega (arith, pow_step 256 k)))

read_le-lt : (k : ℕ) (bytes : List ℕ) → AreBytes bytes → read_le k bytes < 256 ^ k
unfolding read_le
read_le-lt zero bytes a = omega arith
read_le-lt (suc k) [] a = omega (arith, read_le-lt k [] tt, pow_step 256 k)
read_le-lt (suc k) (b ∷ bytes) a =
    let small = a.0 in omega (arith, read_le-lt k bytes a.1, pow_step 256 k)

le_bytes-read_le :
    (k : ℕ) (bytes : List ℕ)
    → AreBytes bytes
    → length bytes ≡ k
    → le_bytes k (read_le k bytes) ≡ bytes
unfolding read_le
le_bytes-read_le zero [] a l = refl
le_bytes-read_le zero (b ∷ bytes) a l = absurd (omega arith)
le_bytes-read_le (suc k) [] a l = absurd (omega arith)
le_bytes-read_le (suc k) (b ∷ bytes) a l =
    let small = a.0 in
    ap₂ ◌∷◌ (omega arith)
      (ap (le_bytes k) (omega arith) ∙ le_bytes-read_le k bytes a.1 (omega arith))

AreBytes-IsProp : (bytes : List ℕ) → IsProp (AreBytes bytes)
AreBytes-IsProp [] = hlevel
AreBytes-IsProp (b ∷ bytes) = ×_prop le_prop (AreBytes-IsProp bytes)

AreBytes-append : (xs ys : List ℕ) → AreBytes xs → AreBytes ys → AreBytes (xs ++ ys)
AreBytes-append [] ys p q = q
AreBytes-append (x ∷ xs) ys p q = (p.0, AreBytes-append xs ys p.1 q)

AreBytes-take : (n : ℕ) (xs : List ℕ) → AreBytes xs → AreBytes (take n xs)
AreBytes-take zero xs p = tt
AreBytes-take (suc n) [] p = tt
AreBytes-take (suc n) (x ∷ xs) p = (p.0, AreBytes-take n xs p.1)

AreBytes-drop : (n : ℕ) (xs : List ℕ) → AreBytes xs → AreBytes (drop n xs)
AreBytes-drop zero xs p = p
AreBytes-drop (suc n) [] p = tt
AreBytes-drop (suc n) (x ∷ xs) p = AreBytes-drop n xs p.1

-- Exactly `n` bytes.
abbrev pub HasBytes : ℕ → List ℕ → Type 0
HasBytes n bytes = AreBytes bytes × (length bytes ≡ n)

HasBytes-IsProp : (n : ℕ) (bytes : List ℕ) → IsProp (HasBytes n bytes)
HasBytes-IsProp n bytes = ×_prop (AreBytes-IsProp bytes) (ℕ_set _ _)

-- `store` puts the values that fit one to one into the strings of `n` bytes.
pub record IsLayout {A : Type 0} (n : ℕ) (Fits : A → Type 0) (store : A → List ℕ) : Type 0 where
  pub load : List ℕ → A
  pub fits_once : (a : A) → IsProp (Fits a)
  pub stored : (a : A) → Fits a → HasBytes n (store a)
  pub loaded : (bytes : List ℕ) → HasBytes n bytes → Fits (load bytes)
  pub load-store : (a : A) → Fits a → load (store a) ≡ a
  pub store-load : (bytes : List ℕ) → HasBytes n bytes → store (load bytes) ≡ bytes

-- A number of `k` bytes.
pub le_bytes-IsLayout : (k : ℕ) → IsLayout k (λ v. v < 256 ^ k) (le_bytes k)
le_bytes-IsLayout k = record {
  load = read_le k;
  fits_once = λ v. le_prop;
  stored = λ v h. (le_bytes-AreBytes k v, length-le_bytes k v);
  loaded = λ bytes h. read_le-lt k bytes h.0;
  load-store = read_le-le_bytes k;
  store-load = λ bytes h. le_bytes-read_le k bytes h.0 h.1;
}

-- An array of `n` bytes.
pub array-IsLayout : (n : ℕ) → IsLayout n (HasBytes n) (λ bytes. bytes)
array-IsLayout n = record {
  load = λ bytes. bytes;
  fits_once = HasBytes-IsProp n;
  stored = λ bytes h. h;
  loaded = λ bytes h. h;
  load-store = λ bytes h. refl;
  store-load = λ bytes h. refl;
}

-- Two numbers of four bits in one byte, the first in its high half.
pub halves-IsLayout :
    IsLayout {A = ℕ × ℕ} 1 (λ p. (p.0 < 16) × (p.1 < 16)) (λ p. u8 (p.0 * 16 + p.1) ∷ [])
unfolding read_le
halves-IsLayout = record {
  load = λ bytes. (read_le 1 bytes / 16, read_le 1 bytes % 16);
  fits_once = λ p. ×_prop le_prop le_prop;
  stored = λ p h. ((omega arith, tt), omega arith);
  loaded = λ bytes h. let small = read_le-lt 1 bytes h.0 in (omega arith, omega arith);
  load-store =
      λ p h. let high = h.0 in let low = h.1 in ap₂ (λ x y. (x, y)) (omega arith) (omega arith);
  store-load = λ bytes h.
      let small = read_le-lt 1 bytes h.0 in
      ap (λ v. v ∷ []) (omega arith) ∙ le_bytes-read_le 1 bytes h.0 h.1;
}

module _ {A B : Type 0} {m n : ℕ} {P : A → Type 0} {Q : B → Type 0} {s : A → List ℕ}
    {t : B → List ℕ} where
  -- One field behind another.
  pub then-IsLayout :
      IsLayout m P s
      → IsLayout n Q t
      → IsLayout {A = A × B} (m + n) (λ p. P p.0 × Q p.1) (λ p. s p.0 ++ t p.1)
  then-IsLayout l k = record {
    load = λ bytes. (l.load (take m bytes), k.load (drop m bytes));
    fits_once = λ p. ×_prop (l.fits_once p.0) (k.fits_once p.1);
    stored = λ p h.
        let x = l.stored p.0 h.0 in
        let y = k.stored p.1 h.1 in
        (AreBytes-append (s p.0) (t p.1) x.0 y.0, length-append (s p.0) (t p.1) ∙ ap₂ ◌+◌ x.1 y.1);
    loaded = λ bytes h.
        (l.loaded (take m bytes) (front bytes h), k.loaded (drop m bytes) (back bytes h));
    load-store = λ p h.
        let x = l.stored p.0 h.0 in
        ap₂ (λ x y. (x, y)) (ap l.load (take-append m (s p.0) (t p.1) x.1) ∙ l.load-store p.0 h.0)
          (ap k.load (drop-append m (s p.0) (t p.1) x.1) ∙ k.load-store p.1 h.1);
    store-load = λ bytes h.
        ap₂ ◌++◌ (l.store-load (take m bytes) (front bytes h))
          (k.store-load (drop m bytes) (back bytes h))
        ∙ take-append-drop m bytes;
  }
    where
      front : (bytes : List ℕ) → HasBytes (m + n) bytes → HasBytes m (take m bytes)
      front bytes h = (AreBytes-take m bytes h.0, omega (arith, length-take m bytes, h.1))

      back : (bytes : List ℕ) → HasBytes (m + n) bytes → HasBytes n (drop m bytes)
      back bytes h = (AreBytes-drop m bytes h.0, omega (arith, length-drop m bytes, h.1))

-- The same fields, as a struct.
pub struct-IsLayout :
    {A B : Type 0} {n : ℕ} {P : A → Type 0} {s : A → List ℕ} (f : A → B) (g : B → A)
    → ((a : A) → g (f a) ≡ a)
    → ((b : B) → f (g b) ≡ b)
    → IsLayout n P s
    → IsLayout n (λ b. P (g b)) (λ b. s (g b))
struct-IsLayout {P = P} {s = s} f g gf fg l = record {
  load = λ bytes. f (l.load bytes);
  fits_once = λ b. l.fits_once (g b);
  stored = λ b h. l.stored (g b) h;
  loaded = λ bytes h. subst P (sym (gf (l.load bytes))) (l.loaded bytes h);
  load-store = λ b h. ap f (l.load-store (g b) h) ∙ fg b;
  store-load = λ bytes h. ap s (gf (l.load bytes)) ∙ l.store-load bytes h;
}

-- The values that fit, to the strings of `n` bytes.
abbrev pub packed :
    {A : Type 0} {n : ℕ} {Fits : A → Type 0} {store : A → List ℕ}
    → IsLayout n Fits store
    → (a : A) × Fits a
    → (bytes : List ℕ) × HasBytes n bytes
packed {store = store} l a = (store a.0, l.stored a.0 a.1)

pub packed-IsEquiv :
    {A : Type 0} {n : ℕ} {Fits : A → Type 0} {store : A → List ℕ} (l : IsLayout n Fits store)
    → IsEquiv (packed l)
packed-IsEquiv {A} {n} l =
    (iso_to_equiv (record {
      fun = packed l;
      inv = λ b. (l.load b.0, l.loaded b.0 b.1);
      rinv = λ b. Σ_prop_path (HasBytes-IsProp n) (l.store-load b.0 b.1);
      linv = λ a. Σ_prop_path l.fits_once (l.load-store a.0 a.1);
    })).1
