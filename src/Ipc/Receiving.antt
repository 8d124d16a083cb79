-- ===== src/Ipc/Receiving.antt =====
-- The calls that receive use no destroyed socket (monitoring/IPCHandler.cpp).
use na62_farm_lib_networking.Base.{
  ℕ, ◌≡◌, ◌⊎◌, inl, inr, refl, ap, sym, List, Option, none, some, Bool, Bool-cases,
}
use mathlib.Core.Path.{subst}
use na62_farm_lib_networking.Ipc.{Opening, Role, IpcHandler, ready}
use na62_farm_lib_networking.Ipc.Receives.{
  Receiving, received, missed, signalled, breaks, receive, when_receiving,
}
use na62_farm_lib_networking.Ipc.Valid.{IsValid, drop_socket-IsValid}
use na62_farm_lib_networking.Ipc.Sockets.{HasSocket, ready-IsReady}
use na62_farm_lib_networking.Ipc.Receives.{flagged, after_receive}
use na62_farm_lib_networking.Ipc.Safety.{deref-some, if_ready}

-- The text that a receive has, if it has one.
abbrev pub text_of : Receiving → Option (List ℕ)
text_of (received text) = some text
text_of missed = none
text_of signalled = none
text_of breaks = none

-- The call returns with the text that was received or with none, and the invariant holds after it.
abbrev pub Receives : Receiving → Option (IpcHandler × Option (List ℕ)) → Type 0
Receives outcome r =
    (y : IpcHandler) × (text : Option (List ℕ)) × (r ≡ some (y, text))
    × IsValid y
    × ((text ≡ none) ⊎ (text ≡ text_of outcome))

pub flagged-IsValid :
    (clears : Receiving → Bool) (r : Role) (outcome : Receiving) (y : IpcHandler)
    → IsValid y
    → IsValid (flagged clears r outcome y)
flagged-IsValid clears r outcome y v = elim (Bool-cases (clears outcome)) [
  | inl e ↦ rw e (record { registry = v.registry; good = v.good; apart = v.apart })
  | inr e ↦ rw e (record { registry = v.registry; good = v.good; apart = v.apart })
]

after_receive-Returns :
    (r : Role) (outcome : Receiving) (y : IpcHandler)
    → IsValid y
    → Receives outcome (after_receive r outcome y)
after_receive-Returns r (received text) y v = (y, some text, refl, v, inr refl)
after_receive-Returns r missed y v = (y, none, refl, v, inl refl)
after_receive-Returns r signalled y v = (y, none, refl, v, inl refl)
after_receive-Returns r breaks y v =
    let (y', e, v') = drop_socket-IsValid r y v in
    (y', none, ap (λ o. elim o [ none ↦ none | some y'' ↦ some (y'', none) ]) e, v', inl refl)

pub receive_lem :
    (clears : Receiving → Bool) (r : Role) (outcome : Receiving) (y : IpcHandler)
    → IsValid y
    → HasSocket (y.pointers r)
    → receive clears r outcome y ≡ after_receive r outcome (flagged clears r outcome y)
unfolding receive
receive_lem clears r outcome y v (a, e) =
    ap (λ d. elim d [ none ↦ none | some _ ↦ after_receive r outcome (flagged clears r outcome y) ])
      (deref-some r y a v e)

receive-Returns :
    (clears : Receiving → Bool) (r : Role) (outcome : Receiving) (y : IpcHandler)
    → IsValid y
    → HasSocket (y.pointers r)
    → Receives outcome (receive clears r outcome y)
receive-Returns clears r outcome y v s =
    subst (Receives outcome) (sym (receive_lem clears r outcome y v s)) (
      after_receive-Returns r outcome (flagged clears r outcome y)
        (flagged-IsValid clears r outcome y v))

pub when_receiving-Returns :
    (clears : Receiving → Bool) (r : Role) (o : Opening) (outcome : Receiving) (y : IpcHandler)
    → IsValid y
    → Receives outcome (when_receiving r o (receive clears r outcome) y)
unfolding when_receiving
when_receiving-Returns clears r o outcome y v =
    let d = ready-IsReady r o y v in
    if_ready (Receives outcome) y.zmq.running (ready r o y).1
      (receive clears r outcome (ready r o y).0) (some ((ready r o y).0, none)) (some (y, none))
      (elim d.set [
        | inl e ↦ inl e
        | inr s ↦ inr (receive-Returns clears r outcome (ready r o y).0 d.valid s)
      ])
      ((ready r o y).0, none, refl, d.valid, inl refl) (y, none, refl, v, inl refl)
