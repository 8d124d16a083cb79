-- ===== src/Ipc/Safety.antt =====
-- The calls that send use no null pointer and no destroyed socket (monitoring/IPCHandler.cpp).
use na62_farm_lib_networking.Base.{
  ℕ, ◌≡◌, ◌⊎◌, inl, inr, ◌∙◌, ◌||◌, ◌++◌, refl, ap, sym, List, [], ◌∷◌, Option, none, some, Bool,
  true, false, arith, if◌then◌else◌, Bool-cases,
}
use mathlib.Core.Path.{subst}
use na62_farm_lib_networking.Memory.{find}
use na62_farm_lib_networking.Ipc.{
  Opening, Role, state_sender, statistics_sender, command_sender, IpcHandler, ready, deref,
}
use na62_farm_lib_networking.Ipc.Calls.{
  State, state_bytes, Sending, accepted, interrupted, fails, give, when_ready, update_state,
  is_empty, is_null, after_command, send_statistics, send_command,
}
use na62_farm_lib_networking.Ipc.Valid.{IsValid, IsGood, drop_socket-IsValid}
use na62_farm_lib_networking.Ipc.Sockets.{HasSocket, ready-IsReady}

-- The call returns, and the invariant holds after it.
abbrev pub Returns : Option IpcHandler → Type 0
Returns r = (y : IpcHandler) × (r ≡ some y) × IsValid y

pub deref-some :
    (r : Role) (y : IpcHandler) (a : ℕ) → IsValid y → y.pointers r ≡ some a → deref r y ≡ some a
deref-some r y a v e =
    let (text, f) = subst (IsGood y.zmq.all_sockets) e (v.good r) in
    ap
      (λ p. elim p [
        | none ↦ none
        | some b ↦ elim (find b y.zmq.all_sockets) [ none ↦ none | some _ ↦ some b ]
      ])
      e
    ∙ ap (λ p. elim p [ none ↦ none | some _ ↦ some a ]) f

give-Returns :
    (r : Role) (works : Bool) (text : List ℕ) (y : IpcHandler)
    → IsValid y
    → HasSocket (y.pointers r)
    → Returns (give r works text y)
unfolding give
give-Returns r works text y v (a, e) =
    let y' = if works then record y { sent = y.sent ++ (a, text) ∷ [] } else y in
    (
      y',
      ap
          (λ p. elim p [
            | none ↦ none
            | some b ↦ some (if works then record y { sent = y.sent ++ (b, text) ∷ [] } else y)
          ])
          (deref-some r y a v e),
      elim (Bool-cases works) [
        | inl w ↦ rw w (record { registry = v.registry; good = v.good; apart = v.apart })
        | inr w ↦ rw w v
      ],
    )

-- The early returns around a body.
pub if_ready {ℓ} :
    {A : Type ℓ} (P : A → Type 0) (running is_ready : Bool) (body early stopped : A)
    → (is_ready ≡ false) ⊎ P body
    → P early
    → P stopped
    → P (if running then (if is_ready then body else early) else stopped)
if_ready P false is_ready body early stopped b e s = s
if_ready P true false body early stopped b e s = e
if_ready P true true body early stopped (inl never) e s = absurd (ground arith)
if_ready P true true body early stopped (inr b) e s = b

pub when_ready-Returns :
    (r : Role) (o : Opening) (body : IpcHandler → Option IpcHandler) (y : IpcHandler)
    → ((y' : IpcHandler) → IsValid y' → HasSocket (y'.pointers r) → Returns (body y'))
    → IsValid y
    → Returns (when_ready r o body y)
unfolding when_ready
when_ready-Returns r o body y h v =
    let d = ready-IsReady r o y v in
    if_ready Returns y.zmq.running (ready r o y).1 (body (ready r o y).0) (some (ready r o y).0)
      (some y) (elim d.set [ inl e ↦ inl e | inr s ↦ inr (h (ready r o y).0 d.valid s) ])
      ((ready r o y).0, refl, d.valid) (y, refl, v)

pub unless_empty :
    (b : Bool) (body : Option IpcHandler) (y : IpcHandler)
    → IsValid y
    → Returns body
    → Returns (if b then some y else body)
unless_empty true body y v r = (y, refl, v)
unless_empty false body y v r = r

pub update_state-Returns :
    (o : Opening) (works : Bool) (new_state : State) (y : IpcHandler)
    → IsValid y
    → Returns (update_state o works new_state y)
unfolding update_state
update_state-Returns o works new_state y v =
    when_ready-Returns state_sender o (give state_sender works (state_bytes new_state)) y
      (give-Returns state_sender works (state_bytes new_state)) v

pub send_statistics-Returns :
    (o : Opening) (works : Bool) (name values : List ℕ) (y : IpcHandler)
    → IsValid y
    → Returns (send_statistics o works name values y)
unfolding send_statistics
send_statistics-Returns o works name values y v =
    when_ready-Returns statistics_sender o _ y
      (λ y' v' s.
        unless_empty (is_null statistics_sender y' || is_empty name || is_empty values)
          (give statistics_sender works (name ++ b':' ∷ values) y') y' v'
          (give-Returns statistics_sender works (name ++ b':' ∷ values) y' v' s))
      v

if_connected :
    (b : Bool) (body : Option IpcHandler) (y : IpcHandler)
    → IsValid y
    → Returns body
    → Returns (if b then body else some y)
if_connected true body y v r = r
if_connected false body y v r = (y, refl, v)

after_command-Returns :
    (outcome : Sending) (command : List ℕ) (y : IpcHandler)
    → IsValid y
    → HasSocket (y.pointers command_sender)
    → Returns (after_command outcome command y)
after_command-Returns accepted command y v s = give-Returns command_sender true command y v s
after_command-Returns interrupted command y v s = (y, refl, v)
after_command-Returns fails command y v s = drop_socket-IsValid command_sender y v

pub send_command-Returns :
    (o : Opening) (connected : Bool) (outcome : Sending) (command : List ℕ) (y : IpcHandler)
    → IsValid y
    → Returns (send_command o connected outcome command y)
unfolding send_command
send_command-Returns o connected outcome command y v =
    when_ready-Returns command_sender o _ y
      (λ y' v' s. unless_empty (is_null command_sender y' || is_empty command) _ y' v' (
        subst
          (λ d. Returns (elim d [
            | none ↦ none
            | some a ↦ if connected then after_command outcome command y' else some y'
          ]))
          (sym (deref-some command_sender y' s.0 v' s.1))
          (if_connected connected (after_command outcome command y') y' v'
            (after_command-Returns outcome command y' v' s))))
      v
