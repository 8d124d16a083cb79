-- ===== src/Dim/Tests.antt =====
-- Runs and examples for dim/DimListener.h and dim/DimListener.cpp.
use na62_farm_lib_networking.Base.{◌≡◌, refl, List, [], ◌∷◌, none, some, arith}
use na62_farm_lib_networking.Dim.{
  BurstTimeInfo, eob_ts, sob_ts, new_dim_listener, burst_time, read_info, info_handler,
}
use na62_farm_lib_networking.Dim.Dispatch.{for_number, for_burst_time}
use na62_farm_lib_networking.Dim.History.{
  Happening, registers, updates, times, clears, run, expected, run-expected,
}

abbrev bti : BurstTimeInfo
bti = record { burst_id = 17; sob_time = 1500000000; eob_time = 1500000009; run_number = 8000 }

-- An update before anyone has registered, and after.
abbrev happenings : List Happening
happenings =
    updates eob_ts 1500000000
    ∷ registers (for_number sob_ts 2)
    ∷ registers (for_number eob_ts 3)
    ∷ registers (for_burst_time 4)
    ∷ updates eob_ts 1500000009
    ∷ times bti
    ∷ clears
    ∷ []

run-expected_example : run happenings new_dim_listener ≡ some (expected [] happenings)
run-expected_example =
    run-expected happenings ((omega arith, omega arith, omega arith, omega arith), tt)

-- Data that is not empty but shorter than the struct is read past its end.
short_data : info_handler (burst_time (1 ∷ [])) new_dim_listener ≡ none
unfolding info_handler read_info
short_data = refl
