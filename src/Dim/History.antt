-- ===== src/Dim/History.antt =====
-- All that happens to a listener from its constructor on, and whom it calls (dim/DimListener.h,
-- dim/DimListener.cpp).
use mathlib.Core.Path.{ap₂}
use mathlib.Core.List.{append-nil}
use na62_farm_lib_networking.Base.{
  ℕ, ◌<◌, ◌^◌, ◌≡◌, ◌∙◌, ap, sym, refl, List, [], ◌∷◌, ◌++◌, ◌>>=◌, map, Option, some, true, ◌||◌,
  ◌==◌, if◌then◌else◌, u32,
}
use na62_farm_lib_networking.Dim.{
  BurstTimeInfo, Service, eob_ts, sob_ts, run_number, burst_number, next_burst_number, DimListener,
  new_dim_listener, callbacks, register, register_burst_time_info_listener, Call, with_value,
  with_info, number, burst_time, other, info_handler,
}
use na62_farm_lib_networking.Dim.Dispatch.{
  Registration, for_number, for_burst_time, same_service, registered, registered_burst_time,
  callbacks-register, callbacks-burst_time, received-register, register_all, registered-number,
  registered-burst, burst_time-number, burst_time-burst,
}
use na62_farm_lib_networking.Dim.BurstTime.{info_bytes, info_handler-info_bytes}

-- A registration, or an update by the DIM library: of a number, of the burst time with its data or with
-- none, or of something else.
pub data Happening : Type 0 where
  registers : Registration → Happening
  updates : Service → ℕ → Happening
  times : BurstTimeInfo → Happening
  clears : Happening
  ignores : Happening

abbrev register_one : Registration → DimListener → DimListener
register_one (for_number service f) l = register service f l
register_one (for_burst_time f) l = register_burst_time_info_listener f l

-- The library stores the number before it calls `infoHandler`.
abbrev store : Service → ℕ → DimListener → DimListener
store service value l = record l {
  received = λ s. if same_service s service then value else l.received s;
}

-- The calls of all updates, in order.
unfoldable pub run : List Happening → DimListener → Option (List Call)
run [] l = some []
run (registers r ∷ hs) l = run hs (register_one r l)
run (updates service value ∷ hs) l =
    info_handler (number service) (store service value l) >>= λ calls.
    run hs (store service value l) >>= λ more. some (calls ++ more)
run (times bti ∷ hs) l = info_handler (burst_time (info_bytes bti)) l >>= λ calls.
    run hs l >>= λ more. some (calls ++ more)
run (clears ∷ hs) l =
    info_handler (burst_time []) l >>= λ calls. run hs l >>= λ more. some (calls ++ more)
run (ignores ∷ hs) l = info_handler other l >>= λ calls. run hs l >>= λ more. some (calls ++ more)

-- What each update should lead to, given the registrations so far.
abbrev pub expected : List Registration → List Happening → List Call
expected rs [] = []
expected rs (registers r ∷ hs) = expected (rs ++ r ∷ []) hs
expected rs (updates service value ∷ hs) =
    map (with_value (u32 value)) (registered service rs) ++ expected rs hs
expected rs (times bti ∷ hs) =
    (if bti.eob_time == 0 || bti.run_number == 0
      then []
      else map (with_info bti) (registered_burst_time rs))
    ++ expected rs hs
expected rs (clears ∷ hs) = expected rs hs
expected rs (ignores ∷ hs) = expected rs hs

-- The four numbers of each burst time have 32 bits.
abbrev pub AreWords : List Happening → Type 0
AreWords [] = Unit {0}
AreWords (registers r ∷ hs) = AreWords hs
AreWords (updates service value ∷ hs) = AreWords hs
AreWords (times bti ∷ hs) =
    ((bti.burst_id < 2 ^ 32)
      × (bti.sob_time < 2 ^ 32)
      × (bti.eob_time < 2 ^ 32)
      × (bti.run_number < 2 ^ 32))
    × AreWords hs
AreWords (clears ∷ hs) = AreWords hs
AreWords (ignores ∷ hs) = AreWords hs

-- The listener has the callbacks of these registrations.
record Has (rs : List Registration) (l : DimListener) : Type 0 where
  for_numbers : (service : Service) → callbacks service l ≡ registered service rs
  for_bursts : l.burst_time_info_callbacks ≡ registered_burst_time rs

register_one-Has :
    (r : Registration) (rs : List Registration) (l : DimListener)
    → Has rs l
    → Has (rs ++ r ∷ []) (register_one r l)
unfolding register_burst_time_info_listener
register_one-Has (for_number s f) rs l h = record {
  for_numbers = λ service.
      callbacks-register service s f l
      ∙ (ap (λ k. k ++ (if same_service service s then f ∷ [] else [])) (h.for_numbers service)
          ∙ sym (registered-number service s f rs));
  for_bursts = (received-register s f l).1 ∙ (h.for_bursts ∙ sym (burst_time-number s f rs));
}
register_one-Has (for_burst_time f) rs l h = record {
  for_numbers = λ service.
      callbacks-burst_time service f l
      ∙ (h.for_numbers service ∙ sym (registered-burst service f rs));
  for_bursts = ap (λ k. k ++ f ∷ []) h.for_bursts ∙ sym (burst_time-burst f rs);
}

callbacks-store :
    (service s : Service) (value : ℕ) (l : DimListener)
    → callbacks service (store s value l) ≡ callbacks service l
callbacks-store eob_ts s value l = refl
callbacks-store sob_ts s value l = refl
callbacks-store run_number s value l = refl
callbacks-store burst_number s value l = refl
callbacks-store next_burst_number s value l = refl

same_service_refl : (s : Service) → same_service s s ≡ true
same_service_refl eob_ts = refl
same_service_refl sob_ts = refl
same_service_refl run_number = refl
same_service_refl burst_number = refl
same_service_refl next_burst_number = refl

info_handler-store :
    (service : Service) (value : ℕ) (rs : List Registration) (l : DimListener)
    → Has rs l
    → info_handler (number service) (store service value l)
      ≡ some (map (with_value (u32 value)) (registered service rs))
unfolding info_handler
info_handler-store service value rs l h =
    ap₂ (λ v fs. some (map (with_value (u32 v)) fs))
      (ap (λ b. if b then value else l.received service) (same_service_refl service))
      (callbacks-store service service value l ∙ h.for_numbers service)

info_handler-times :
    (bti : BurstTimeInfo) (rs : List Registration) (l : DimListener)
    → (bti.burst_id < 2 ^ 32)
      × (bti.sob_time < 2 ^ 32)
      × (bti.eob_time < 2 ^ 32)
      × (bti.run_number < 2 ^ 32)
    → Has rs l
    → info_handler (burst_time (info_bytes bti)) l
      ≡ some (
          if bti.eob_time == 0 || bti.run_number == 0
          then []
          else map (with_info bti) (registered_burst_time rs))
unfolding register_all
info_handler-times bti rs l (b, s, e, r) h =
    info_handler-info_bytes [] l bti b s e r
    ∙ ap
        (λ k. some (if bti.eob_time == 0 || bti.run_number == 0 then [] else map (with_info bti) k))
        (append-nil _ ∙ h.for_bursts)

both_calls :
    (a b : Option (List Call)) (x y : List Call)
    → a ≡ some x
    → b ≡ some y
    → (a >>= λ calls. b >>= λ more. some (calls ++ more)) ≡ some (x ++ y)
both_calls a b x y e f = ap₂ (λ p q. p >>= λ calls. q >>= λ more. some (calls ++ more)) e f

run-Has :
    (hs : List Happening) (rs : List Registration) (l : DimListener)
    → AreWords hs
    → Has rs l
    → run hs l ≡ some (expected rs hs)
unfolding run info_handler
run-Has [] rs l w h = refl
run-Has (registers r ∷ hs) rs l w h =
    run-Has hs (rs ++ r ∷ []) (register_one r l) w (register_one-Has r rs l h)
run-Has (updates service value ∷ hs) rs l w h =
    both_calls _ _ _ _ (info_handler-store service value rs l h) (
      run-Has hs rs (store service value l) w (record {
        for_numbers = λ t. callbacks-store t service value l ∙ h.for_numbers t;
        for_bursts = h.for_bursts;
      }))
run-Has (times bti ∷ hs) rs l w h =
    both_calls _ _ _ _ (info_handler-times bti rs l w.0 h) (run-Has hs rs l w.1 h)
run-Has (clears ∷ hs) rs l w h = both_calls _ _ [] _ refl (run-Has hs rs l w h)
run-Has (ignores ∷ hs) rs l w h = both_calls _ _ [] _ refl (run-Has hs rs l w h)

-- Whatever happens to a new listener, registrations and updates in any order, `infoHandler` returns from
-- each update: one of a number calls the callbacks registered for it so far, and no other, each once for
-- each registration and in their order, with the new number; one of the burst time calls those for the burst
-- time with its four numbers, of 32 bits, unless the end of burst or the run number is 0; empty data and
-- other services call none.
pub run-expected :
    (hs : List Happening) → AreWords hs → run hs new_dim_listener ≡ some (expected [] hs)
run-expected hs w =
    run-Has hs [] new_dim_listener w (record { for_numbers = none_yet; for_bursts = refl })
  where
    none_yet : (service : Service) → callbacks service new_dim_listener ≡ registered service []
    none_yet eob_ts = refl
    none_yet sob_ts = refl
    none_yet run_number = refl
    none_yet burst_number = refl
    none_yet next_burst_number = refl
