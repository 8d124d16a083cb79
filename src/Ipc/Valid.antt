-- ===== src/Ipc/Valid.antt =====
-- The socket pointers stay good (monitoring/IPCHandler.cpp).
use na62_farm_lib_networking.Base.{
  ℕ, ◌<◌, ◌≡◌, ◌≢◌, ◌⊎◌, inl, inr, ◌∙◌, refl, ap, sym, List, ◌∷◌, Option, none, some, Bool, true,
  false, arith, Bool-cases,
}
use mathlib.Core.Path.{subst}
use na62_farm_lib_networking.Memory.{find, remove}
use na62_farm_lib_networking.Memory.Laws.{find-ge, find-remove_ne}
use na62_farm_lib_networking.Zmq.{ZmqHandler, generate_socket, destroy_socket}
use na62_farm_lib_networking.Zmq.Registry.{
  IsRegistry, generate_socket-IsRegistry, without, destroy_socket_lem, without-IsRegistry,
}
use na62_farm_lib_networking.Ipc.{
  Role, same_role, name, IpcHandler, set_pointer, open_socket, drop_socket,
}

-- A pointer is null, or its socket is registered.
abbrev pub IsGood : List (ℕ × List ℕ) → Option ℕ → Type 0
IsGood sockets none = Unit {0}
IsGood sockets (some a) = (text : List ℕ) × (find a sockets ≡ some text)

abbrev pub AreApart : Option ℕ → Option ℕ → Type 0
AreApart (some a) (some b) = a ≢ b
AreApart p q = Unit {0}

-- Sockets are registered once and counted, and each pointer is null or has a registered socket of its
-- own.
pub record IsValid (y : IpcHandler) : Type 0 where
  pub registry : IsRegistry y.zmq
  pub good : (r : Role) → IsGood y.zmq.all_sockets (y.pointers r)
  pub apart : (r q : Role) → (same_role r q ≡ true) ⊎ AreApart (y.pointers r) (y.pointers q)

AreApart-sym : (p q : Option ℕ) → AreApart p q → AreApart q p
AreApart-sym none none a = tt
AreApart-sym none (some b) a = tt
AreApart-sym (some b) none a = tt
AreApart-sym (some b) (some c) a = λ same. a (sym same)

-- A new pointer at one role, over sockets that keep those of the others.
set_pointer-IsValid :
    (r : Role) (p : Option ℕ) (z : ZmqHandler) (y : IpcHandler)
    → IsRegistry z
    → IsGood z.all_sockets p
    → ((q : Role) → same_role q r ≡ false → IsGood z.all_sockets (y.pointers q))
    → ((q : Role) → same_role q r ≡ false → AreApart p (y.pointers q))
    → IsValid y
    → IsValid (set_pointer r p (record y { zmq = z }))
set_pointer-IsValid r p z y registry new others away v = record {
  registry = registry;
  good = λ q. elim (Bool-cases (same_role q r)) [ inl e ↦ rw e new | inr e ↦ rw e (others q e) ];
  apart = λ q s. elim (Bool-cases (same_role q r)) [
    | inl e ↦ elim (Bool-cases (same_role s r)) [
      | inl f ↦ inl (ground arith)
      | inr f ↦ inr (rw e (rw f (away s f)))
    ]
    | inr e ↦ elim (Bool-cases (same_role s r)) [
      | inl f ↦ inr (rw e (rw f (AreApart-sym p (y.pointers q) (away q e))))
      | inr f ↦ elim (v.apart q s) [ inl same ↦ inl same | inr d ↦ inr (rw e (rw f d)) ]
    ]
  ];
}

registered_lt :
    (z : ZmqHandler) (a : ℕ) (text : List ℕ)
    → IsRegistry z
    → find a z.all_sockets ≡ some text
    → a < z.next_socket
registered_lt z a text v e = ground (arith, find-ge a z.next_socket z.all_sockets v.once)

pub IsGood-newer :
    (z : ZmqHandler) (text : List ℕ) (p : Option ℕ)
    → IsRegistry z
    → IsGood z.all_sockets p
    → IsGood ((z.next_socket, text) ∷ z.all_sockets) p
IsGood-newer z text none v g = tt
IsGood-newer z text (some a) v g = (g.0, ground (arith, registered_lt z a g.0 v g.1, g.1))

newer-AreApart :
    (z : ZmqHandler) (p : Option ℕ)
    → IsRegistry z
    → IsGood z.all_sockets p
    → AreApart (some z.next_socket) p
newer-AreApart z none v g = tt
newer-AreApart z (some a) v g = λ same. omega (arith, registered_lt z a g.0 v g.1)

with_zmq-IsValid :
    (z : ZmqHandler) (y : IpcHandler)
    → IsRegistry z
    → z.all_sockets ≡ y.zmq.all_sockets
    → IsValid y
    → IsValid (record y { zmq = z })
with_zmq-IsValid z y registry same v = record {
  registry = registry;
  good = λ r. subst (λ l. IsGood l (y.pointers r)) (sym same) (v.good r);
  apart = v.apart;
}

pub open_socket-IsValid :
    (works : Bool) (r : Role) (y : IpcHandler) → IsValid y → IsValid (open_socket works r y).0
unfolding open_socket generate_socket
open_socket-IsValid false r y v =
    with_zmq-IsValid (generate_socket false (name r) y.zmq).0 y
      (generate_socket-IsRegistry false (name r) y.zmq v.registry) refl v
open_socket-IsValid true r y v =
    set_pointer-IsValid r (some y.zmq.next_socket) (generate_socket true (name r) y.zmq).0 y
      (generate_socket-IsRegistry true (name r) y.zmq v.registry) (name r, ground arith)
      (λ q e. IsGood-newer y.zmq (name r) (y.pointers q) v.registry (v.good q))
      (λ q e. newer-AreApart y.zmq (y.pointers q) v.registry (v.good q)) v

pub IsGood-remove :
    (a : ℕ) (sockets : List (ℕ × List ℕ)) (p : Option ℕ)
    → AreApart (some a) p
    → IsGood sockets p
    → IsGood (remove a sockets) p
IsGood-remove a sockets none d g = tt
IsGood-remove a sockets (some b) d g =
    (g.0, find-remove_ne b a sockets (λ same. d (sym same)) ∙ g.1)

others_apart :
    (r : Role) (p : Option ℕ) (y : IpcHandler)
    → IsValid y
    → y.pointers r ≡ p
    → (q : Role) → same_role q r ≡ false
    → AreApart p (y.pointers q)
others_apart r p y v e q f = elim (v.apart r q) [
  | inl same ↦ absurd (ground arith)
  | inr d ↦ subst (λ k. AreApart k (y.pointers q)) e d
]

-- Dropping a role's socket succeeds, whether there is one or not.
pub drop_socket-IsValid :
    (r : Role) (y : IpcHandler)
    → IsValid y
    → (y' : IpcHandler) × (drop_socket r y ≡ some y') × IsValid y'
unfolding drop_socket
drop_socket-IsValid r y v = go (y.pointers r) refl (v.good r)
  where
    dropped :
        (p : Option ℕ) (z : ZmqHandler)
        → y.pointers r ≡ p
        → destroy_socket p y.zmq ≡ some z
        → drop_socket r y ≡ some (set_pointer r none (record y { zmq = z }))
    dropped p z e f =
        ap
          (λ o. elim o [
            | none ↦ none
            | some z' ↦ some (set_pointer r none (record y { zmq = z' }))
          ])
          (ap (λ k. destroy_socket k y.zmq) e ∙ f)

    go :
        (p : Option ℕ)
        → y.pointers r ≡ p
        → IsGood y.zmq.all_sockets p
        → (y' : IpcHandler) × (drop_socket r y ≡ some y') × IsValid y'
    go none e g = (
      set_pointer r none (record y { zmq = y.zmq }),
      dropped none y.zmq e refl,
      set_pointer-IsValid r none y.zmq y v.registry tt (λ q f. v.good q) (λ q f. tt) v,
    )
    go (some a) e g =
        let z = without a y.zmq in
        let away = others_apart r (some a) y v e in
        (
          set_pointer r none (record y { zmq = z }),
          dropped (some a) z e (destroy_socket_lem a g.0 y.zmq g.1),
          set_pointer-IsValid r none z y (without-IsRegistry a g.0 y.zmq g.1 v.registry) tt
              (λ q f. IsGood-remove a y.zmq.all_sockets (y.pointers q) (away q f) (v.good q))
              (λ q f. tt) v,
        )
