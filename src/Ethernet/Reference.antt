-- ===== src/Ethernet/Reference.antt =====
-- A concrete Internet checksum: it shows that what is assumed of the sums can hold.
use na62_farm_lib_networking.Base.{
  ℕ, ◌+◌, ◌-◌, ◌%◌, ◌≤◌, ◌<◌, ◌≡◌, refl, arith, ◌==◌, if◌then◌else◌, htons,
}
use na62_farm_lib_networking.Ethernet.Checksum.{Checksums}
use na62_farm_lib_networking.Ethernet.Checksum.RoundTrip.{be_sum, IsInternetChecksum}

-- One's complement sums of 16 bits, which are 0 only for 0.
abbrev pub ones_complement : ℕ → ℕ
ones_complement n = if n == 0 then 0 else (n - 1) % 0xffff + 1

abbrev pub reference : Checksums
reference = record {
  generate_checksum = λ block sum. htons (0xffff - ones_complement (sum + be_sum block));
  generate_checksum_unwrapped = λ block sum. ones_complement (sum + be_sum block);
  wrapsum = λ sum. htons (0xffff - sum);
}

ones_complement_lem :
    (n : ℕ) → (ones_complement n % 0xffff ≡ n % 0xffff) × (ones_complement n ≤ 0xffff)
ones_complement_lem n = ground arith

ones_complement_pos : (n : ℕ) → 0 < n → 0 < ones_complement n
ones_complement_pos n h = ground arith

pub reference-IsInternetChecksum : IsInternetChecksum reference
reference-IsInternetChecksum = record {
  congruent = λ block sum small. (ones_complement_lem (sum + be_sum block)).0;
  bounded = λ block sum small. (ones_complement_lem (sum + be_sum block)).1;
  positive = λ block sum small pos. ones_complement_pos (sum + be_sum block) pos;
  complement = λ sum small. refl;
  whole = λ block sum. refl;
}
