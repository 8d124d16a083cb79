-- ===== src/Ipc/Outcomes.antt =====
-- What the calls that receive and the time-out return (monitoring/IPCHandler.cpp).
use na62_farm_lib_networking.Base.{
  ◌+◌, ◌*◌, ℕ, ◌≡◌, ◌≤◌, ◌⊎◌, inl, inr, ◌∙◌, refl, ap, sym, List, [], ◌∷◌, Option, none, some, Bool,
  true, false, arith, length, if◌then◌else◌,
}
use mathlib.Core.Path.{subst}
use na62_farm_lib_networking.Ipc.{
  Opening, state_receiver, statistics_receiver, IpcHandler, ready, deref,
}
use na62_farm_lib_networking.Ipc.Receives.{Receiving, read_state, state_of, set_timeout}
use na62_farm_lib_networking.Ipc.Valid.{IsValid}
use na62_farm_lib_networking.Ipc.Sockets.{HasSocket}
use na62_farm_lib_networking.Ipc.{bind_server}
use na62_farm_lib_networking.Ipc.Sockets.{opener-IsReady}
use na62_farm_lib_networking.Ipc.Receives.{set_timeouts}
use na62_farm_lib_networking.Ipc.Safety.{Returns, deref-some}
use na62_farm_lib_networking.Ipc.Receiving.{text_of, Receives}

abbrev pub state_after {ℓ} : {A : Type ℓ} → Option (IpcHandler × A) → Option IpcHandler
state_after none = none
state_after (some (y, a)) = some y

pub state_after-Returns :
    (outcome : Receiving) (r : Option (IpcHandler × Option (List ℕ)))
    → Receives outcome r
    → Returns (state_after r)
state_after-Returns outcome r (y, text, e, v, from) = (y, ap state_after e, v)

pub Returns-IsValid : (r : Option IpcHandler) (w : IpcHandler) → r ≡ some w → Returns r → IsValid w
Returns-IsValid r w e (y, f, v) = let same : y ≡ w = cc in subst IsValid same v

pub state_of-IsValid :
    (outcome : Receiving) (r : Option (IpcHandler × Option (List ℕ))) (w : IpcHandler)
    → Receives outcome r
    → state_after (state_of r) ≡ some w
    → IsValid w
unfolding state_of
state_of-IsValid outcome r w (y, text, e, v, from) f =
    go text (ap (λ k. state_after (state_of k)) (sym e) ∙ f)
  where
    short :
        (o : Option ℕ)
        → state_after (elim o [ none ↦ none | some n ↦ some (y, n) ]) ≡ some w
        → IsValid w
    short none g = absurd cc
    short (some n) g = Returns-IsValid (some y) w g (y, refl, v)

    go : (text : Option (List ℕ)) → state_after (state_of (some (y, text))) ≡ some w → IsValid w
    go none g = Returns-IsValid (some y) w g (y, refl, v)
    go (some t) g = short (read_state t) g

pub set_timeouts-IsValid :
    (works is_ready : Bool) (p q : Option ℕ) (y w : IpcHandler)
    → IsValid y
    → (if is_ready then set_timeouts works p q y else some y) ≡ some w
    → IsValid w
set_timeouts-IsValid works false p q y w v e = Returns-IsValid (some y) w e (y, refl, v)
set_timeouts-IsValid works true none q y w v e = absurd cc
set_timeouts-IsValid false true (some a) q y w v e = Returns-IsValid (some y) w e (y, refl, v)
set_timeouts-IsValid true true (some a) none y w v e = absurd cc
set_timeouts-IsValid true true (some a) (some b) y w v e = Returns-IsValid (some y) w e (y, refl, v)

read_state-some : (text : List ℕ) → 4 ≤ length text → (n : ℕ) × (read_state text ≡ some n)
unfolding read_state
read_state-some [] h = absurd (omega arith)
read_state-some (a ∷ []) h = absurd (omega arith)
read_state-some (a ∷ b ∷ []) h = absurd (omega arith)
read_state-some (a ∷ b ∷ c ∷ []) h = absurd (omega arith)
read_state-some (a ∷ b ∷ c ∷ d ∷ more) h = (a + b * 256 + c * 65536 + d * 16777216, refl)

abbrev pub IsLong : Option (List ℕ) → Type 0
IsLong none = Unit {0}
IsLong (some text) = 4 ≤ length text

pub state_of-Returns :
    (outcome : Receiving) (r : Option (IpcHandler × Option (List ℕ)))
    → IsLong (text_of outcome)
    → Receives outcome r
    → Returns (state_after (state_of r))
unfolding state_of
state_of-Returns outcome r long (y, text, e, v, from) =
    subst (λ k. Returns (state_after (state_of k))) (sym e)
      (go text (elim from [ inl f ↦ subst IsLong (sym f) tt | inr f ↦ subst IsLong (sym f) long ]))
  where
    go : (text : Option (List ℕ)) → IsLong text → Returns (state_after (state_of (some (y, text))))
    go none long = (y, refl, v)
    go (some t) long =
        let (n, f) = read_state-some t long in
        (y, ap (λ o. state_after (elim o [ none ↦ none | some k ↦ some (y, k) ])) f, v)

set_timeouts-Returns :
    (works : Bool) (y : IpcHandler)
    → IsValid y
    → HasSocket (y.pointers statistics_receiver)
    → HasSocket (y.pointers state_receiver)
    → Returns (set_timeouts works (deref statistics_receiver y) (deref state_receiver y) y)
set_timeouts-Returns works y v (a, e) (b, f) =
    subst (λ p. Returns (set_timeouts works p (deref state_receiver y) y))
      (sym (deref-some statistics_receiver y a v e))
      (subst (λ q. Returns (set_timeouts works (some a) q y))
        (sym (deref-some state_receiver y b v f)) (go works))
  where
    go : (works : Bool) → Returns (set_timeouts works (some a) (some b) y)
    go true = (y, refl, v)
    go false = (y, refl, v)

pub set_timeout-Returns :
    (o : Opening) (works : Bool) (y : IpcHandler)
    → IsValid y
    → (y.pointers statistics_receiver ≡ none) ⊎ HasSocket (y.pointers state_receiver)
    → Returns (set_timeout o works y)
unfolding set_timeout ready
set_timeout-Returns o works y v a = go (y.pointers statistics_receiver) refl
  where
    after :
        (is_ready : Bool) (y' : IpcHandler)
        → IsValid y'
        → (is_ready ≡ false)
          ⊎ (HasSocket (y'.pointers statistics_receiver) × HasSocket (y'.pointers state_receiver))
        → Returns (
            if is_ready
            then set_timeouts works (deref statistics_receiver y') (deref state_receiver y') y'
            else some y')
    after false y' v' s = (y', refl, v')
    after true y' v' (inl never) = absurd (ground arith)
    after true y' v' (inr s) = set_timeouts-Returns works y' v' s.0 s.1

    go :
        (p : Option ℕ)
        → y.pointers statistics_receiver ≡ p
        → Returns (
            let (y', is_ready) = elim p as (λ _. IpcHandler × Bool) [
              | none ↦ bind_server o y
              | some _ ↦ (y, true)
            ] in
            if is_ready
            then set_timeouts works (deref statistics_receiver y') (deref state_receiver y') y'
            else some y')
    go none e =
        let s = opener-IsReady statistics_receiver o y v in
        let t = opener-IsReady state_receiver o y v in
        after (bind_server o y).1 (bind_server o y).0 s.valid (elim s.set [
          | inl f ↦ inl f
          | inr set_s ↦ elim t.set [ inl f ↦ inl f | inr set_t ↦ inr (set_s, set_t) ]
        ])
    go (some b) e = after true y v (inr ((b, e), elim a [ inl never ↦ absurd cc | inr s ↦ s ]))
