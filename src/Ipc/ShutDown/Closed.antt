-- ===== src/Ipc/ShutDown/Closed.antt =====
-- Which sockets `shutDown` closes (monitoring/IPCHandler.cpp).
use na62_farm_lib_networking.Base.{
  ℕ, ◌≡◌, inl, inr, ◌∙◌, ◌&&◌, ◌||◌, not, refl, ap, List, [], ◌∷◌, Option, none, some, Bool, true,
  false, arith, if◌then◌else◌,
}
use na62_farm_lib_networking.Memory.{find}
use na62_farm_lib_networking.Zmq.{ZmqHandler}
use na62_farm_lib_networking.Zmq.Registry.{IsRegistry}
use na62_farm_lib_networking.Ipc.{Role, same_role, IpcHandler}
use na62_farm_lib_networking.Ipc.ShutDown.{destroy_all, roles, shut_down}
use na62_farm_lib_networking.Ipc.Valid.{IsGood, AreApart, IsValid}
use na62_farm_lib_networking.Ipc.ShutDown.One.{points_to, is_idle, Closes, destroy_idle-Closes}

-- The pointers of some roles are good, and those of each have sockets of their own.
abbrev AllGood : List Role → IpcHandler → Type 0
AllGood [] y = Unit {0}
AllGood (r ∷ rs) y = IsGood y.zmq.all_sockets (y.pointers r) × AllGood rs y

abbrev AllAway : Role → List Role → IpcHandler → Type 0
AllAway r [] y = Unit {0}
AllAway r (q ∷ rs) y = AreApart (y.pointers r) (y.pointers q) × AllAway r rs y

abbrev AllApart : List Role → IpcHandler → Type 0
AllApart [] y = Unit {0}
AllApart (r ∷ rs) y = AllAway r rs y × AllApart rs y

pub points_elsewhere : (p : Option ℕ) (a : ℕ) → AreApart p (some a) → points_to p a ≡ false
points_elsewhere none a d = refl
points_elsewhere (some c) a d = ground arith

not_idle :
    (flag : Bool) (p : Option ℕ) (a : ℕ)
    → points_to p a ≡ false
    → ((not flag && points_to p a) || false) ≡ false
not_idle true p a e = refl
not_idle false p a e = ap (λ b. b || false) e

IsGood-after :
    (r : Role) (p : Option ℕ) (y : IpcHandler) (z : ZmqHandler)
    → Closes (r ∷ []) y z
    → AreApart (y.pointers r) p
    → IsGood y.zmq.all_sockets p
    → IsGood z.all_sockets p
IsGood-after r none y z c d g = tt
IsGood-after r (some a) y z c d (text, h) = (
  text,
  c.left a
      ∙ (ap (λ b. if b then none else find a y.zmq.all_sockets)
            (not_idle (y.active r) (y.pointers r) a (points_elsewhere (y.pointers r) a d))
          ∙ h),
)

AllGood-after :
    (r : Role) (rs : List Role) (y : IpcHandler) (z : ZmqHandler)
    → Closes (r ∷ []) y z
    → AllAway r rs y
    → AllGood rs y
    → AllGood rs (record y { zmq = z })
AllGood-after r [] y z c d g = tt
AllGood-after r (q ∷ rs) y z c d g =
    (IsGood-after r (y.pointers q) y z c d.0 g.0, AllGood-after r rs y z c d.1 g.1)

AllAway-after :
    (r : Role) (rs : List Role) (y : IpcHandler) (z : ZmqHandler)
    → AllAway r rs y
    → AllAway r rs (record y { zmq = z })
AllAway-after r [] y z d = tt
AllAway-after r (q ∷ rs) y z d = (d.0, AllAway-after r rs y z d.1)

AllApart-after :
    (rs : List Role) (y : IpcHandler) (z : ZmqHandler)
    → AllApart rs y
    → AllApart rs (record y { zmq = z })
AllApart-after [] y z d = tt
AllApart-after (r ∷ rs) y z d = (AllAway-after r rs y z d.0, AllApart-after rs y z d.1)

is_idle_after :
    (rs : List Role) (y : IpcHandler) (z : ZmqHandler) (b : ℕ)
    → is_idle rs (record y { zmq = z }) b ≡ is_idle rs y b
is_idle_after [] y z b = refl
is_idle_after (r ∷ rs) y z b =
    ap (λ t. (not (y.active r) && points_to (y.pointers r) b) || t) (is_idle_after rs y z b)

either_closed :
    (s t : Bool) (f : Option (List ℕ))
    → (if t then none else if s || false then none else f) ≡ (if s || t then none else f)
either_closed true true f = refl
either_closed true false f = refl
either_closed false true f = refl
either_closed false false f = refl

destroy_all-Closes :
    (rs : List Role) (y : IpcHandler)
    → IsRegistry y.zmq
    → AllGood rs y
    → AllApart rs y
    → (z : ZmqHandler) × (destroy_all rs y ≡ some (record y { zmq = z })) × Closes rs y z
unfolding destroy_all
destroy_all-Closes [] y v g d = (y.zmq, refl, record { registry = v; left = λ b. refl })
destroy_all-Closes (r ∷ rs) y v g d =
    let (z, e, c) = destroy_idle-Closes r y v g.0 in
    let rest =
      destroy_all-Closes rs (record y { zmq = z }) c.registry (AllGood-after r rs y z c d.0 g.1)
        (AllApart-after rs y z d.1) in
    (
      rest.0,
      ap (λ o. elim o [ none ↦ none | some y' ↦ destroy_all rs y' ]) e ∙ rest.1,
      record {
        registry = rest.2.registry;
        left = λ b.
            rest.2.left b
            ∙ (ap (λ t. if t then none else find b z.all_sockets) (is_idle_after rs y z b)
                ∙ (ap (λ f. if is_idle rs y b then none else f) (c.left b)
                    ∙ either_closed (not (y.active r) && points_to (y.pointers r) b)
                        (is_idle rs y b) (find b y.zmq.all_sockets)));
      },
    )

AllGood-IsValid : (rs : List Role) (y : IpcHandler) → IsValid y → AllGood rs y
AllGood-IsValid [] y v = tt
AllGood-IsValid (r ∷ rs) y v = (v.good r, AllGood-IsValid rs y v)

abbrev any_same : Role → List Role → Bool
any_same r [] = false
any_same r (q ∷ rs) = same_role r q || any_same r rs

abbrev repeats : List Role → Bool
repeats [] = false
repeats (r ∷ rs) = any_same r rs || repeats rs

two_apart :
    (y : IpcHandler) (r q : Role)
    → IsValid y
    → same_role r q ≡ false
    → AreApart (y.pointers r) (y.pointers q)
two_apart y r q v e = elim (v.apart r q) [ inl same ↦ absurd (ground arith) | inr d ↦ d ]

AllAway-IsValid :
    (r : Role) (rs : List Role) (y : IpcHandler)
    → IsValid y
    → any_same r rs ≡ false
    → AllAway r rs y
AllAway-IsValid r [] y v e = tt
AllAway-IsValid r (q ∷ rs) y v e =
    (two_apart y r q v (ground arith), AllAway-IsValid r rs y v (ground arith))

AllApart-IsValid :
    (rs : List Role) (y : IpcHandler) → IsValid y → repeats rs ≡ false → AllApart rs y
AllApart-IsValid [] y v e = tt
AllApart-IsValid (r ∷ rs) y v e =
    (AllAway-IsValid r rs y v (ground arith), AllApart-IsValid rs y v (ground arith))

-- While the pointers are good, `shutDown` returns. It closes the sockets of the roles whose flag is
-- not set and no others, the count of open sockets stays right, and no pointer is nulled.
pub shut_down-closes :
    (y : IpcHandler)
    → IsValid y
    → (z : ZmqHandler) × (shut_down y ≡ some (record y { zmq = z }))
      × IsRegistry z
      × ((a : ℕ)
          → find a z.all_sockets ≡ (if is_idle roles y a then none else find a y.zmq.all_sockets))
unfolding shut_down
shut_down-closes y v =
    let (z, e, c) =
      destroy_all-Closes roles y v.registry (AllGood-IsValid roles y v)
        (AllApart-IsValid roles y v refl) in
    (z, e, c.registry, c.left)
