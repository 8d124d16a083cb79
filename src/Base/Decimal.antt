-- ===== src/Base/Decimal.antt =====
-- An `int` as `operator<<` and `std::to_string` print it.
use Prim.Native.Nat.{ℕ, zero, suc, ◌+◌, ◌-◌, ◌*◌, ◌/◌, ◌%◌, ◌<◌, ◌≤◌}
use mathlib.Core.Path.{◌≡◌, refl, sym, ap, ◌∙◌}
use mathlib.Core.Logic.{inl, inr}
use mathlib.Core.List.{List, [], ◌∷◌, ◌++◌, append_assoc}
use native.Mathlib.Omega.{arith}
use na62_farm_lib_networking.Base.Lists.{length, length-append}
use na62_farm_lib_networking.Base.Tests.{ltb, ◌==◌, if◌then◌else◌, Bool-cases}

pub data ℤ : Type 0 where
  pos negsuc : ℕ → ℤ

digits : ℕ → ℕ → List ℕ
digits zero n = []
digits (suc k) n =
    let front = digits k (n / 10) in
    if ltb n 10 then (b'0' + n) ∷ [] else front ++ (b'0' + n % 10) ∷ []

-- A number below its fuel is printed whole.
pub decimal : ℕ → List ℕ
unfolding digits
decimal n = digits (suc n) n

unfoldable pub int_text : ℤ → List ℕ
unfolding decimal
int_text (pos n) = decimal n
int_text (negsuc n) = b'-' ∷ decimal (suc n)

-- The digits at the front of a text, after those read before.
read_digits : ℕ → List ℕ → ℕ
read_digits n [] = n
read_digits n (c ∷ s) =
    let rest = read_digits (n * 10 + (c - b'0')) s in if ltb c b'0' then n else rest

pub read_int : List ℕ → ℤ
unfolding read_digits
read_int [] = pos 0
read_int (c ∷ s) = if c == b'-' then negsuc (read_digits 0 s - 1) else pos (read_digits 0 (c ∷ s))

read_digits-digit :
    (m d : ℕ) (s : List ℕ) → d < 10 → read_digits m ((b'0' + d) ∷ s) ≡ read_digits (m * 10 + d) s
unfolding read_digits
read_digits-digit m d s h = ground arith

read_digits_lem : (k n : ℕ) (s : List ℕ) → n < k → read_digits 0 (digits k n ++ s) ≡ read_digits n s
unfolding digits read_digits
read_digits_lem zero n s h = absurd (omega arith)
read_digits_lem (suc k) n s h = elim (Bool-cases (ltb n 10)) [
  | inl small ↦ rw small (ground arith)
  | inr large ↦ rw large (
      ap (read_digits 0) (append_assoc (digits k (n / 10)) ((b'0' + n % 10) ∷ []) s)
      ∙ (read_digits_lem k (n / 10) ((b'0' + n % 10) ∷ s) (ground arith)
          ∙ (read_digits-digit (n / 10) (n % 10) s (omega arith)
              ∙ ap (λ m. read_digits m s) (omega arith))))
]

digits_head : (k n : ℕ) → n < k → (c : ℕ) × (s : List ℕ) × (digits k n ≡ c ∷ s) × (b'0' ≤ c)
unfolding digits
digits_head zero n h = absurd (omega arith)
digits_head (suc k) n h = elim (Bool-cases (ltb n 10)) [
  | inl small ↦ (b'0' + n, [], rw small refl, omega arith)
  | inr large ↦
      let r = digits_head k (n / 10) (ground arith) in
      (r.0, r.1 ++ (b'0' + n % 10) ∷ [], rw large (ap (λ l. l ++ (b'0' + n % 10) ∷ []) r.2), r.3)
]

read_digits-decimal : (n c : ℕ) (s : List ℕ) → c < b'0' → read_digits 0 (decimal n ++ c ∷ s) ≡ n
unfolding decimal read_digits
read_digits-decimal n c s h = read_digits_lem (suc n) n (c ∷ s) (omega arith) ∙ ground arith

read_int-digits : (c : ℕ) (s : List ℕ) → b'0' ≤ c → read_int (c ∷ s) ≡ pos (read_digits 0 (c ∷ s))
unfolding read_int
read_int-digits c s h = ground arith

-- A number is read back from its text, whatever follows a character that is no digit.
pub read_int-int_text : (i : ℤ) (c : ℕ) (s : List ℕ) → c < b'0' → read_int (int_text i ++ c ∷ s) ≡ i
unfolding read_int int_text decimal
read_int-int_text (pos n) c s h =
    let r = digits_head (suc n) n (omega arith) in
    ap (λ l. read_int (l ++ c ∷ s)) r.2
    ∙ (read_int-digits r.0 (r.1 ++ c ∷ s) r.3
        ∙ ap pos (ap (λ l. read_digits 0 (l ++ c ∷ s)) (sym r.2) ∙ read_digits-decimal n c s h))
read_int-int_text (negsuc n) c s h =
    ap (λ m. negsuc (m - 1)) (read_digits-decimal (suc n) c s h) ∙ ap negsuc (omega arith)

digits_one : (k n : ℕ) → n < 10 → length (digits (suc k) n) ≤ 1
unfolding digits
digits_one k n h = ground arith

digits_two : (k n : ℕ) → n < 100 → length (digits (suc (suc k)) n) ≤ 2
unfolding digits
digits_two k n h = ground (
  arith,
  length-append {0} (digits (suc k) (n / 10)) ((b'0' + n % 10) ∷ []),
  digits_one k (n / 10) (omega arith),
)

digits_three : (k n : ℕ) → n < 1000 → length (digits (suc (suc (suc k))) n) ≤ 3
unfolding digits
digits_three k n h = elim (Bool-cases (ltb n 10)) [
  | inl small ↦ rw small (omega arith)
  | inr large ↦ rw large (
      omega (
        arith,
        length-append {0} (digits (suc (suc k)) (n / 10)) ((b'0' + n % 10) ∷ []),
        digits_two k (n / 10) (omega arith),
      ))
]

digits_fuel : (f n : ℕ) → n < f → n < 1000 → length (digits f n) ≤ 3
digits_fuel zero n h small = absurd (omega arith)
digits_fuel (suc zero) n h small = omega (arith, digits_one 0 n (omega arith))
digits_fuel (suc (suc zero)) n h small = omega (arith, digits_one 1 n (omega arith))
digits_fuel (suc (suc (suc k))) n h small = digits_three k n small

-- A byte takes at most three digits.
pub length-int_text : (n : ℕ) → n < 256 → length (int_text (pos n)) ≤ 3
unfolding int_text decimal
length-int_text n h = digits_fuel (suc n) n (omega arith) (omega arith)
