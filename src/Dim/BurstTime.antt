-- ===== src/Dim/BurstTime.antt =====
-- Who is called for an update of the burst time (dim/DimListener.cpp, `infoHandler`).
use mathlib.Core.Path.{ap₂}
use na62_farm_lib_networking.Base.{
  ℕ, ◌+◌, ◌*◌, ◌/◌, ◌%◌, ◌^◌, ◌<◌, ◌≡◌, ◌∙◌, ap, refl, List, [], ◌++◌, map, none, some, Bool, true,
  false, not, ◌||◌, ◌&&◌, arith, ◌==◌, if◌then◌else◌, le_bytes,
}
use na62_farm_lib_networking.Dim.{
  BurstTimeInfo, DimListener, Call, with_info, burst_time, read_info, burst_time_calls,
  info_handler,
}
use na62_farm_lib_networking.Dim.Dispatch.{
  Registration, register_all, registered_burst_time, burst_time-register_all,
}

-- The data of an update of the burst time, as the little-endian struct of its four numbers.
abbrev pub info_bytes : BurstTimeInfo → List ℕ
info_bytes bti =
    le_bytes 4 bti.burst_id
    ++ (le_bytes 4 bti.sob_time ++ (le_bytes 4 bti.eob_time ++ le_bytes 4 bti.run_number))

-- A word, from the bytes that it is stored in.
abbrev word_of : ℕ → ℕ
word_of n =
    n % 256
    + n / 256 % 256 * 256
    + n / 256 / 256 % 256 * 65536
    + n / 256 / 256 / 256 % 256 * 16777216

word_bytes : (n : ℕ) → n < 2 ^ 32 → word_of n ≡ n
word_bytes n h = omega arith

pub read_info-info_bytes :
    (bti : BurstTimeInfo)
    → bti.burst_id < 2 ^ 32
    → bti.sob_time < 2 ^ 32
    → bti.eob_time < 2 ^ 32
    → bti.run_number < 2 ^ 32
    → read_info (info_bytes bti) ≡ some bti
unfolding read_info
read_info-info_bytes bti hb hs he hr =
    ap₂
      (λ a b. some (record {
        burst_id = a;
        sob_time = b;
        eob_time = word_of bti.eob_time;
        run_number = word_of bti.run_number;
      }))
      (word_bytes bti.burst_id hb) (word_bytes bti.sob_time hs)
    ∙ ap₂
        (λ a b. some (record {
          burst_id = bti.burst_id;
          sob_time = bti.sob_time;
          eob_time = a;
          run_number = b;
        }))
        (word_bytes bti.eob_time he) (word_bytes bti.run_number hr)

pub if_either :
    (a b : Bool) (calls : List Call)
    → (if not a && not b then calls else []) ≡ (if a || b then [] else calls)
if_either true b calls = refl
if_either false true calls = refl
if_either false false calls = refl

-- After any registrations, an update of the burst time with four numbers of 32 bits calls, with those
-- four, the callbacks for the burst time that there were and then the registered ones, in order; it
-- calls none while the end of burst or the run number is 0.
pub info_handler-info_bytes :
    (rs : List Registration) (l : DimListener) (bti : BurstTimeInfo)
    → bti.burst_id < 2 ^ 32
    → bti.sob_time < 2 ^ 32
    → bti.eob_time < 2 ^ 32
    → bti.run_number < 2 ^ 32
    → info_handler (burst_time (info_bytes bti)) (register_all rs l)
      ≡ some (
          if bti.eob_time == 0 || bti.run_number == 0
          then []
          else map (with_info bti) (l.burst_time_info_callbacks ++ registered_burst_time rs))
unfolding info_handler read_info burst_time_calls
info_handler-info_bytes rs l bti hb hs he hr =
    let fs = (register_all rs l).burst_time_info_callbacks in
    ap (λ o. elim o [ none ↦ none | some b ↦ some (burst_time_calls fs b) ])
      (read_info-info_bytes bti hb hs he hr)
    ∙ (ap some (if_either (bti.eob_time == 0) (bti.run_number == 0) (map (with_info bti) fs))
        ∙ ap
            (λ k.
              some (if bti.eob_time == 0 || bti.run_number == 0 then [] else map (with_info bti) k))
            (burst_time-register_all rs l).1)
