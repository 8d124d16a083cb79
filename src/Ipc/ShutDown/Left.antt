-- ===== src/Ipc/ShutDown/Left.antt =====
-- A state is received, and the handler shut down (monitoring/IPCHandler.cpp).
use mathlib.Core.Path.{subst}
use na62_farm_lib_networking.Base.{
  ℕ, ◌≡◌, ◌⊎◌, inl, inr, ◌∙◌, ◌&&◌, ◌||◌, not, refl, ap, List, [], ◌∷◌, none, some, Bool, true,
  false, arith, if◌then◌else◌, Bool-cases,
}
use na62_farm_lib_networking.Memory.{find}
use na62_farm_lib_networking.Ipc.{
  Role, state_receiver, same_role, IpcHandler, Opening, set_active, ready, opener,
}
use na62_farm_lib_networking.Zmq.{ZmqHandler}
use na62_farm_lib_networking.Ipc.Calls.{
  State, off, initializing, running, error, timeout, value, state_bytes,
}
use na62_farm_lib_networking.Ipc.Receives.{
  received, clears_missed, receive, when_receiving, read_state, state_of, try_to_receive_state,
}
use na62_farm_lib_networking.Ipc.Receiving.{receive_lem}
use na62_farm_lib_networking.Ipc.ShutDown.{roles, shut_down}
use na62_farm_lib_networking.Ipc.ShutDown.Closed.{points_elsewhere, shut_down-closes}
use na62_farm_lib_networking.Ipc.ShutDown.One.{points_to, is_idle}
use na62_farm_lib_networking.Ipc.Valid.{IsValid, AreApart}

read_state-state_bytes : (s : State) → read_state (state_bytes s) ≡ some (value s)
unfolding read_state
read_state-state_bytes off = refl
read_state-state_bytes initializing = refl
read_state-state_bytes running = refl
read_state-state_bytes error = refl
read_state-state_bytes timeout = refl

not_pointed :
    (y : IpcHandler) (r q : Role) (a : ℕ)
    → IsValid y
    → y.pointers q ≡ some a
    → same_role r q ≡ false
    → points_to (y.pointers r) a ≡ false
not_pointed y r q a v e f = elim (v.apart r q) [
  | inl same ↦ absurd (ground arith)
  | inr d ↦ points_elsewhere (y.pointers r) a (subst (AreApart (y.pointers r)) e d)
]

neither_idle :
    (flag p rest : Bool)
    → (flag ≡ true) ⊎ (p ≡ false)
    → rest ≡ false
    → ((not flag && p) || rest) ≡ false
neither_idle true p rest h e = e
neither_idle false true rest h e = elim h [
  | inl never ↦ absurd (ground arith)
  | inr never ↦ absurd (ground arith)
]
neither_idle false false rest h e = e

-- The socket of a role whose flag is set is not idle.
is_idle-set_active :
    (rs : List Role) (y : IpcHandler) (q : Role) (a : ℕ)
    → IsValid y
    → y.pointers q ≡ some a
    → is_idle rs (set_active q true y) a ≡ false
is_idle-set_active [] y q a v e = refl
is_idle-set_active (r ∷ rs) y q a v e =
    neither_idle ((set_active q true y).active r) (points_to (y.pointers r) a)
      (is_idle rs (set_active q true y) a)
      (elim (Bool-cases (same_role r q)) [
        | inl same ↦ inl (rw same refl)
        | inr other ↦ inr (not_pointed y r q a v e other)
      ])
      (is_idle-set_active rs y q a v e)

ready_set :
    (r : Role) (o : Opening) (y : IpcHandler) (a : ℕ)
    → y.pointers r ≡ some a
    → ready r o y ≡ (y, true)
unfolding ready
ready_set r o y a e = ap (λ p. elim p [ none ↦ opener r o y | some _ ↦ (y, true) ]) e

try_to_receive_state-received :
    (o : Opening) (text : List ℕ) (n : ℕ) (y : IpcHandler) (a : ℕ)
    → IsValid y
    → y.zmq.running ≡ true
    → y.pointers state_receiver ≡ some a
    → read_state text ≡ some n
    → try_to_receive_state o (received text) y ≡ some (set_active state_receiver true y, n)
unfolding try_to_receive_state when_receiving state_of
try_to_receive_state-received o text n y a v up e f =
    let body = receive clears_missed state_receiver (received text) in
    ap
      (λ q.
        state_of
          (if y.zmq.running then (if q.1 then body q.0 else some (q.0, none)) else some (y, none)))
      (ready_set state_receiver o y a e)
    ∙ (ap (λ b. state_of (if b then body y else some (y, none))) up
        ∙ (ap state_of (receive_lem clears_missed state_receiver (received text) y v (a, e))
            ∙ ap (λ k. elim k [ none ↦ none | some m ↦ some (set_active state_receiver true y, m) ])
                f))

-- In a valid state with an open receiver, the bytes of a state are received as that state's value; the
-- receiver's flag is left set, so that `shutDown` then returns and leaves the receiver's socket open.
pub shut_down-received :
    (s : State) (o : Opening) (y : IpcHandler) (a : ℕ)
    → IsValid y
    → y.zmq.running ≡ true
    → y.pointers state_receiver ≡ some a
    → (y' : IpcHandler) × (z : ZmqHandler) × (try_to_receive_state o (received (state_bytes s)) y
        ≡ some (y', value s))
      × (shut_down y' ≡ some (record y' { zmq = z }))
      × (find a z.all_sockets ≡ find a y.zmq.all_sockets)
shut_down-received s o y a v up e =
    let y' = set_active state_receiver true y in
    let v' : IsValid y' = record { registry = v.registry; good = v.good; apart = v.apart } in
    let (z, returned, registry, left) = shut_down-closes y' v' in
    (
      y',
      z,
      try_to_receive_state-received o (state_bytes s) (value s) y a v up e
          (read_state-state_bytes s),
      returned,
      left a
          ∙ ap (λ b. if b then none else find a y.zmq.all_sockets)
              (is_idle-set_active roles y state_receiver a v e),
    )
