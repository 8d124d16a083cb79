-- ===== src/NetworkHandler/PCap/Startup/Names.antt =====
-- Names of interfaces as `strncpy` leaves them and the kernel reads them (socket/PCapHandler.cpp).
use mathlib.Core.List.{append-nil}
use na62_farm_lib_networking.Base.{
  ℕ, zero, suc, ◌+◌, ◌-◌, ◌<◌, ◌≤◌, ◌≡◌, ◌∙◌, refl, ap, List, [], ◌∷◌, ◌++◌, none, some, false,
  if◌then◌else◌, ltb, ◌==◌, length, take, drop, replicate, arith,
}
use na62_farm_lib_networking.Ethernet.Iface.{ifnamsiz}
use na62_farm_lib_networking.NetworkHandler.PCap.Startup.{strncpy, c_string}

abbrev pub HasNoZero : List ℕ → Type 0
HasNoZero [] = Unit {0}
HasNoZero (c ∷ s) = ((c == 0) ≡ false) × HasNoZero s

pub c_string-padded :
    (k n : ℕ) (s : List ℕ) → HasNoZero s → c_string (take k (s ++ replicate n 0)) ≡ take k s
unfolding c_string
c_string-padded zero n [] z = refl
c_string-padded (suc k) zero [] z = refl
c_string-padded (suc k) (suc n) [] z = refl
c_string-padded zero n (c ∷ s) z = refl
c_string-padded (suc k) n (c ∷ s) z = rw z.0 (ap (◌∷◌ c) (c_string-padded k n s z.1))

pub c_string-ended :
    (k : ℕ) (s t : List ℕ) → HasNoZero s → length s < k → c_string (take k (s ++ 0 ∷ t)) ≡ s
unfolding c_string
c_string-ended zero s t z h = absurd (omega arith)
c_string-ended (suc k) [] t z h = refl
c_string-ended (suc k) (c ∷ s) t z h = rw z.0 (ap (◌∷◌ c) (c_string-ended k s t z.1 (omega arith)))

pub strncpy_lem :
    (field name : List ℕ) (n : ℕ)
    → n ≤ 16
    → n ≤ length name
    → strncpy field name n ≡ some (take n name ++ drop n field)
unfolding strncpy
strncpy_lem field name n h fits =
    ap (λ m. if ltb ifnamsiz n then none else some ((take n name ++ replicate m 0) ++ drop n field))
      (let none_left : n - length name ≡ 0 = omega arith in none_left)
    ∙ ground (arith, append-nil (take n name))

pub drop-replicate : (a m n k : ℕ) → n ≡ m + k → drop m (replicate n a) ≡ replicate k a
drop-replicate a zero n k e = ap (λ i. replicate i a) (let same : n ≡ k = omega arith in same)
drop-replicate a (suc m) zero k e = ap (λ i. replicate i a) (let same : 0 ≡ k = omega arith in same)
drop-replicate a (suc m) (suc n) k e = drop-replicate a m n k (omega arith)
