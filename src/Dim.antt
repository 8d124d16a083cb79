-- ===== src/Dim.antt =====
-- dim/DimListener.h and dim/DimListener.cpp: the listener of the run control's DIM services.
--
-- A callback is known by a number, and a call of one is a value; what the DIM library last received for
-- each service is in the state. Numbers of 32 bits are their bit patterns.
pub mod Dispatch
pub mod BurstTime
pub mod History
mod Tests
use na62_farm_lib_networking.Base.{
  ℕ, ◌+◌, ◌-◌, ◌*◌, ◌^◌, List, [], ◌∷◌, ◌++◌, map, Option, none, some, true, false, not, ◌&&◌, ◌==◌,
  if◌then◌else◌, length, u32,
}

pub record BurstTimeInfo : Type 0 where
  pub burst_id : ℕ
  pub sob_time : ℕ
  pub eob_time : ℕ
  pub run_number : ℕ

-- The services with one number.
pub data Service : Type 0 where
  eob_ts sob_ts run_number burst_number next_burst_number : Service

pub record DimListener : Type 0 where
  pub received : Service → ℕ
  pub eob_callbacks : List ℕ
  pub sob_callbacks : List ℕ
  pub run_number_callbacks : List ℕ
  pub burst_number_callbacks : List ℕ
  pub next_burst_number_callbacks : List ℕ
  pub burst_time_info_callbacks : List ℕ

-- What `getInt()` returns of a service that has not been updated: -1 or 0.
abbrev pub no_link : Service → ℕ
no_link eob_ts = 0
no_link sob_ts = 0
no_link run_number = 2 ^ 32 - 1
no_link burst_number = 2 ^ 32 - 1
no_link next_burst_number = 2 ^ 32 - 1

-- The constructor.
abbrev pub new_dim_listener : DimListener
new_dim_listener = record {
  received = no_link;
  eob_callbacks = [];
  sob_callbacks = [];
  run_number_callbacks = [];
  burst_number_callbacks = [];
  next_burst_number_callbacks = [];
  burst_time_info_callbacks = [];
}

-- `getEobTimeStamp()` and its like.
abbrev pub get_value : Service → DimListener → ℕ
get_value service l = u32 (l.received service)

abbrev pub callbacks : Service → DimListener → List ℕ
callbacks eob_ts l = l.eob_callbacks
callbacks sob_ts l = l.sob_callbacks
callbacks run_number l = l.run_number_callbacks
callbacks burst_number l = l.burst_number_callbacks
callbacks next_burst_number l = l.next_burst_number_callbacks

-- `registerEobListener` and its like.
pub register : Service → ℕ → DimListener → DimListener
register eob_ts f l = record l { eob_callbacks = l.eob_callbacks ++ f ∷ [] }
register sob_ts f l = record l { sob_callbacks = l.sob_callbacks ++ f ∷ [] }
register run_number f l = record l { run_number_callbacks = l.run_number_callbacks ++ f ∷ [] }
register burst_number f l = record l { burst_number_callbacks = l.burst_number_callbacks ++ f ∷ [] }
register next_burst_number f l = record l {
  next_burst_number_callbacks = l.next_burst_number_callbacks ++ f ∷ [];
}

pub register_burst_time_info_listener : ℕ → DimListener → DimListener
register_burst_time_info_listener f l = record l {
  burst_time_info_callbacks = l.burst_time_info_callbacks ++ f ∷ [];
}

pub data Call : Type 0 where
  with_value : ℕ → ℕ → Call
  with_info : BurstTimeInfo → ℕ → Call

-- What `getInfo()` returns: one of the numbers, the burst time with its data, or something else.
pub data Info : Type 0 where
  number : Service → Info
  burst_time : List ℕ → Info
  other : Info

-- Four 32-bit words from the data; `none` is a read past its end.
pub read_info : List ℕ → Option BurstTimeInfo
read_info (a0 ∷ a1 ∷ a2 ∷ a3 ∷ b0 ∷ b1 ∷ b2 ∷ b3 ∷ c0 ∷ c1 ∷ c2 ∷ c3 ∷ d0 ∷ d1 ∷ d2 ∷ d3 ∷ more) =
    some (record {
      burst_id = a0 + a1 * 256 + a2 * 65536 + a3 * 16777216;
      sob_time = b0 + b1 * 256 + b2 * 65536 + b3 * 16777216;
      eob_time = c0 + c1 * 256 + c2 * 65536 + c3 * 16777216;
      run_number = d0 + d1 * 256 + d2 * 65536 + d3 * 16777216;
    })
read_info short = none

pub burst_time_calls : List ℕ → BurstTimeInfo → List Call
burst_time_calls fs bti =
    if not (bti.eob_time == 0) && not (bti.run_number == 0) then map (with_info bti) fs else []

-- The calls that are made, in order.
pub info_handler : Info → DimListener → Option (List Call)
unfolding read_info burst_time_calls
info_handler (number service) l =
    some (map (with_value (get_value service l)) (callbacks service l))
info_handler (burst_time []) l = some []
info_handler (burst_time (a ∷ data_)) l = elim (read_info (a ∷ data_)) [
  | none ↦ none
  | some bti ↦ some (burst_time_calls l.burst_time_info_callbacks bti)
]
info_handler other l = some []
