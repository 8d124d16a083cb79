-- ===== src/Ethernet/CheckData.antt =====
-- `EthernetUtils::CheckData` (socket/EthernetUtils.h).
use na62_farm_lib_networking.Base.{
  ℕ, zero, suc, ◌+◌, ◌*◌, ◌/◌, ◌%◌, ◌^◌, ◌≤◌, ◌<◌, ◌≡◌, refl, List, [], ◌∷◌, Option, none, some,
  Bool, not, leb, Bool-cases, inl, inr, ap, ◌&&◌, arith, ◌==◌, if◌then◌else◌, length, bit_and, u16,
  u32, AreBytes,
}
use na62_farm_lib_networking.Base.Bits.{bit_and_low}
use mathlib.Core.Option
use native.Mathlib.Nat.{zero-add}

-- `while (len > 0)`: one 16-bit read a round; `none` is a read past the end of the memory.
pub sum_loop : ℕ → List ℕ → ℕ → Option ℕ
sum_loop zero bytes sum = some sum
sum_loop (suc len) [] sum = none
sum_loop (suc len) (a ∷ []) sum = none
sum_loop (suc len) (a ∷ b ∷ bytes) sum = sum_loop len bytes (u32 (sum + (a + b * 256)))

pub fold_twice : ℕ → ℕ
fold_twice sum = let sum' = u32 (sum / 2 ^ 16 + bit_and sum 0xffff) in u32 (sum' + sum' / 2 ^ 16)

pub rounds : ℕ → ℕ
rounds len = if bit_and len 1 == 0 then len / 2 else u16 (len / 2 + 1)

unfoldable pub check_data : List ℕ → ℕ → Option Bool
check_data bytes len = Option.map (λ sum. fold_twice sum == 0xffff) (sum_loop (rounds len) bytes 0)

-- The words that are summed, as a number with no wrap.
abbrev pub word_sum : ℕ → List ℕ → ℕ
word_sum zero bytes = 0
word_sum (suc n) [] = 0
word_sum (suc n) (a ∷ []) = 0
word_sum (suc n) (a ∷ b ∷ bytes) = a + b * 256 + word_sum n bytes

word_sum-le : (n : ℕ) (bytes : List ℕ) → AreBytes bytes → word_sum n bytes ≤ 65535 * n
word_sum-le zero bytes h = omega arith
word_sum-le (suc n) [] h = omega arith
word_sum-le (suc n) (a ∷ []) h = omega arith
word_sum-le (suc n) (a ∷ b ∷ bytes) h = omega (arith, word_sum-le n bytes h.1.1)

sum_loop-some :
    (n : ℕ) (bytes : List ℕ) (sum : ℕ)
    → AreBytes bytes
    → 2 * n ≤ length bytes
    → sum + 65535 * n < 2 ^ 32
    → sum_loop n bytes sum ≡ some (sum + word_sum n bytes)
unfolding sum_loop
sum_loop-some zero bytes sum h fits small = ground arith
sum_loop-some (suc n) [] sum h fits small = absurd (omega arith)
sum_loop-some (suc n) (a ∷ []) sum h fits small = absurd (omega arith)
sum_loop-some (suc n) (a ∷ b ∷ bytes) sum h fits small =
    ground (arith, sum_loop-some n bytes (sum + (a + b * 256)) h.1.1)

sum_loop-none :
    (n : ℕ) (bytes : List ℕ) (sum : ℕ) → length bytes < 2 * n → sum_loop n bytes sum ≡ none
unfolding sum_loop
sum_loop-none zero bytes sum short = absurd (omega arith)
sum_loop-none (suc n) [] sum short = refl
sum_loop-none (suc n) (a ∷ []) sum short = refl
sum_loop-none (suc n) (a ∷ b ∷ bytes) sum short = sum_loop-none n bytes _ (omega arith)

rounds_lem : (len : ℕ) → len < 2 ^ 16 → rounds len ≡ (len + 1) / 2
unfolding rounds
rounds_lem len h = ground (arith, bit_and_low 1 len)

-- Folding the carries twice gives all ones exactly at the nonzero multiples of 65535.
fold_twice_ones :
    (sum : ℕ)
    → sum ≤ 65535 * 32768
    → (fold_twice sum == 0xffff) ≡ (not (sum == 0) && (sum % 65535 == 0))
unfolding fold_twice
fold_twice_ones sum h = ground (arith, bit_and_low 16 sum)

-- For a length of 16 bits: if the memory reaches to the end of the last word, which for an odd
-- length is one byte further than the length, the answer is whether the words' sum is a multiple of
-- 65535 and not 0 (their one's complement sum is all ones); if not, it reads past the memory.
pub check_data_lem :
    (bytes : List ℕ) (len : ℕ)
    → AreBytes bytes
    → len < 2 ^ 16
    → let total = word_sum ((len + 1) / 2) bytes in
      check_data bytes len ≡ (
        if leb (len + len % 2) (length bytes)
        then some (not (total == 0) && (total % 65535 == 0))
        else none)
unfolding check_data
check_data_lem bytes len h short = elim (Bool-cases (leb (len + len % 2) (length bytes))) [
  | inl fits ↦
      rw
        (
          fits,
          rounds_lem len short,
          sum_loop-some ((len + 1) / 2) bytes 0 h (ground arith) (ground arith),
          zero-add,
        )
        (ap some (
          fold_twice_ones (word_sum ((len + 1) / 2) bytes)
            (omega (arith, word_sum-le ((len + 1) / 2) bytes h))))
  | inr past ↦ rw (past, rounds_lem len short, sum_loop-none ((len + 1) / 2) bytes 0 (ground arith))
]
