-- ===== src/Dim/Dispatch.antt =====
-- Who is called for an update (dim/DimListener.cpp, `infoHandler`).
use mathlib.Core.Path.{ap₂}
use mathlib.Core.List.{append-nil, append_assoc}
use na62_farm_lib_networking.Base.{
  ℕ, ◌≡◌, ◌∙◌, ap, sym, refl, List, [], ◌∷◌, ◌++◌, map, some, Bool, true, false, if◌then◌else◌, u32,
  arith,
}
use na62_farm_lib_networking.Dim.{
  Service, eob_ts, sob_ts, run_number, burst_number, next_burst_number, DimListener, get_value,
  callbacks, register, register_burst_time_info_listener, with_value, number, info_handler,
}

-- A call of one of the six functions that register a callback.
pub data Registration : Type 0 where
  for_number : Service → ℕ → Registration
  for_burst_time : ℕ → Registration

unfoldable pub register_all : List Registration → DimListener → DimListener
register_all [] l = l
register_all (for_number service f ∷ rs) l = register_all rs (register service f l)
register_all (for_burst_time f ∷ rs) l = register_all rs (register_burst_time_info_listener f l)

abbrev pub same_service : Service → Service → Bool
same_service eob_ts eob_ts = true
same_service sob_ts sob_ts = true
same_service run_number run_number = true
same_service burst_number burst_number = true
same_service next_burst_number next_burst_number = true
same_service a b = false

-- The callbacks of the registrations for a service, and of those for the burst time.
abbrev pub registered : Service → List Registration → List ℕ
registered service [] = []
registered service (for_number s f ∷ rs) =
    if same_service service s then f ∷ registered service rs else registered service rs
registered service (for_burst_time f ∷ rs) = registered service rs

abbrev pub registered_burst_time : List Registration → List ℕ
registered_burst_time [] = []
registered_burst_time (for_number s f ∷ rs) = registered_burst_time rs
registered_burst_time (for_burst_time f ∷ rs) = f ∷ registered_burst_time rs

pub callbacks-register :
    (service s : Service) (f : ℕ) (l : DimListener)
    → callbacks service (register s f l)
      ≡ callbacks service l ++ (if same_service service s then f ∷ [] else [])
unfolding register
callbacks-register eob_ts eob_ts f l = refl
callbacks-register eob_ts sob_ts f l = sym (append-nil _)
callbacks-register eob_ts run_number f l = sym (append-nil _)
callbacks-register eob_ts burst_number f l = sym (append-nil _)
callbacks-register eob_ts next_burst_number f l = sym (append-nil _)
callbacks-register sob_ts eob_ts f l = sym (append-nil _)
callbacks-register sob_ts sob_ts f l = refl
callbacks-register sob_ts run_number f l = sym (append-nil _)
callbacks-register sob_ts burst_number f l = sym (append-nil _)
callbacks-register sob_ts next_burst_number f l = sym (append-nil _)
callbacks-register run_number eob_ts f l = sym (append-nil _)
callbacks-register run_number sob_ts f l = sym (append-nil _)
callbacks-register run_number run_number f l = refl
callbacks-register run_number burst_number f l = sym (append-nil _)
callbacks-register run_number next_burst_number f l = sym (append-nil _)
callbacks-register burst_number eob_ts f l = sym (append-nil _)
callbacks-register burst_number sob_ts f l = sym (append-nil _)
callbacks-register burst_number run_number f l = sym (append-nil _)
callbacks-register burst_number burst_number f l = refl
callbacks-register burst_number next_burst_number f l = sym (append-nil _)
callbacks-register next_burst_number eob_ts f l = sym (append-nil _)
callbacks-register next_burst_number sob_ts f l = sym (append-nil _)
callbacks-register next_burst_number run_number f l = sym (append-nil _)
callbacks-register next_burst_number burst_number f l = sym (append-nil _)
callbacks-register next_burst_number next_burst_number f l = refl

pub callbacks-burst_time :
    (service : Service) (f : ℕ) (l : DimListener)
    → callbacks service (register_burst_time_info_listener f l) ≡ callbacks service l
unfolding register_burst_time_info_listener
callbacks-burst_time eob_ts f l = refl
callbacks-burst_time sob_ts f l = refl
callbacks-burst_time run_number f l = refl
callbacks-burst_time burst_number f l = refl
callbacks-burst_time next_burst_number f l = refl

pub received-register :
    (s : Service) (f : ℕ) (l : DimListener)
    → ((register s f l).received ≡ l.received)
      × ((register s f l).burst_time_info_callbacks ≡ l.burst_time_info_callbacks)
unfolding register
received-register eob_ts f l = (refl, refl)
received-register sob_ts f l = (refl, refl)
received-register run_number f l = (refl, refl)
received-register burst_number f l = (refl, refl)
received-register next_burst_number f l = (refl, refl)

registered_cons :
    (service s : Service) (f : ℕ) (before rs : List ℕ)
    → (before ++ (if same_service service s then f ∷ [] else [])) ++ rs
      ≡ before ++ (if same_service service s then f ∷ rs else rs)
registered_cons service s f before rs = go (same_service service s)
  where
    go :
        (b : Bool)
        → (before ++ (if b then f ∷ [] else [])) ++ rs ≡ before ++ (if b then f ∷ rs else rs)
    go true = append_assoc before (f ∷ []) rs
    go false = append_assoc before [] rs

pub registered-number :
    (service s : Service) (f : ℕ) (rs : List Registration)
    → registered service (rs ++ for_number s f ∷ [])
      ≡ registered service rs ++ (if same_service service s then f ∷ [] else [])
registered-number service s f [] = refl
registered-number service s f (for_number t g ∷ rs) =
    ground (arith, registered-number service s f rs)
registered-number service s f (for_burst_time g ∷ rs) = registered-number service s f rs

pub registered-burst :
    (service : Service) (f : ℕ) (rs : List Registration)
    → registered service (rs ++ for_burst_time f ∷ []) ≡ registered service rs
registered-burst service f [] = refl
registered-burst service f (for_number t g ∷ rs) = ground (arith, registered-burst service f rs)
registered-burst service f (for_burst_time g ∷ rs) = registered-burst service f rs

pub burst_time-number :
    (s : Service) (f : ℕ) (rs : List Registration)
    → registered_burst_time (rs ++ for_number s f ∷ []) ≡ registered_burst_time rs
burst_time-number s f [] = refl
burst_time-number s f (for_number t g ∷ rs) = burst_time-number s f rs
burst_time-number s f (for_burst_time g ∷ rs) = ap (◌∷◌ g) (burst_time-number s f rs)

pub burst_time-burst :
    (f : ℕ) (rs : List Registration)
    → registered_burst_time (rs ++ for_burst_time f ∷ []) ≡ registered_burst_time rs ++ f ∷ []
burst_time-burst f [] = refl
burst_time-burst f (for_number t g ∷ rs) = burst_time-burst f rs
burst_time-burst f (for_burst_time g ∷ rs) = ap (◌∷◌ g) (burst_time-burst f rs)

callbacks-register_all :
    (rs : List Registration) (service : Service) (l : DimListener)
    → callbacks service (register_all rs l) ≡ callbacks service l ++ registered service rs
unfolding register_all
callbacks-register_all [] service l = sym (append-nil _)
callbacks-register_all (for_number s f ∷ rs) service l =
    callbacks-register_all rs service (register s f l)
    ∙ (ap (λ k. k ++ registered service rs) (callbacks-register service s f l)
        ∙ registered_cons service s f (callbacks service l) (registered service rs))
callbacks-register_all (for_burst_time f ∷ rs) service l =
    callbacks-register_all rs service (register_burst_time_info_listener f l)
    ∙ ap (λ k. k ++ registered service rs) (callbacks-burst_time service f l)

pub burst_time-register_all :
    (rs : List Registration) (l : DimListener)
    → ((register_all rs l).received ≡ l.received)
      × ((register_all rs l).burst_time_info_callbacks
          ≡ l.burst_time_info_callbacks ++ registered_burst_time rs)
unfolding register_all register_burst_time_info_listener
burst_time-register_all [] l = (refl, sym (append-nil _))
burst_time-register_all (for_number s f ∷ rs) l =
    let ih = burst_time-register_all rs (register s f l) in
    let one = received-register s f l in
    (ih.0 ∙ one.0, ih.1 ∙ ap (λ k. k ++ registered_burst_time rs) one.1)
burst_time-register_all (for_burst_time f ∷ rs) l =
    let ih = burst_time-register_all rs (register_burst_time_info_listener f l) in
    (ih.0, ih.1 ∙ append_assoc l.burst_time_info_callbacks (f ∷ []) (registered_burst_time rs))

-- After any calls of the six functions that register a callback, an update of a service with one number
-- calls the callbacks that it had before and then those registered for this service, and no other,
-- each once for each registration and in their order, with the number that the service has.
pub info_handler-register_all :
    (rs : List Registration) (service : Service) (l : DimListener)
    → info_handler (number service) (register_all rs l)
      ≡ some (map (with_value (get_value service l)) (callbacks service l ++ registered service rs))
unfolding info_handler
info_handler-register_all rs service l =
    ap₂ (λ r fs. some (map (with_value (u32 (r service))) fs)) (burst_time-register_all rs l).0
      (callbacks-register_all rs service l)
