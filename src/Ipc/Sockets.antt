-- ===== src/Ipc/Sockets.antt =====
-- `connectClient` and `bindServer` (monitoring/IPCHandler.cpp).
use na62_farm_lib_networking.Base.{
  ℕ, ◌≡◌, ◌⊎◌, inl, inr, refl, List, [], ◌∷◌, Option, none, some, Bool, true, false, arith,
  if◌then◌else◌, Bool-cases,
}
use na62_farm_lib_networking.Zmq.{generate_socket}
use na62_farm_lib_networking.Ipc.{
  Opening, Role, state_sender, statistics_sender, command_sender, state_receiver,
  statistics_receiver, command_receiver, same_role, IpcHandler, open_socket, open_all,
  connect_client, bind_server, opener, ready, client, server,
}
use na62_farm_lib_networking.Ipc.Valid.{IsValid, open_socket-IsValid}

abbrev pub HasSocket : Option ℕ → Type 0
HasSocket p = (a : ℕ) × (p ≡ some a)

-- A new socket is kept by its role; the other pointers stay.
open_socket_lem :
    (works : Bool) (r q : Role) (y : IpcHandler)
    → HasSocket (y.pointers q) ⊎ ((same_role q r ≡ true) × ((open_socket works r y).1 ≡ true))
    → HasSocket ((open_socket works r y).0.pointers q)
unfolding open_socket generate_socket
open_socket_lem false r q y (inl s) = s
open_socket_lem false r q y (inr (e, made)) = absurd (ground arith)
open_socket_lem true r q y h = elim (Bool-cases (same_role q r)) [
  | inl e ↦ rw e (y.zmq.next_socket, refl)
  | inr e ↦ rw e (elim h [ inl s ↦ s | inr (f, made) ↦ absurd (ground arith) ])
]

-- Whether a role is among those that are opened.
abbrev Opens : Role → List (Role × Bool) → Type 0
Opens q [] = ⊥
Opens q ((r, works) ∷ rs) = (same_role q r ≡ true) ⊎ Opens q rs

-- The invariant is kept, no pointer is nulled, and all are set if there is no exception.
record Opened (joined : Bool) (rs : List (Role × Bool)) (y : IpcHandler) (out : IpcHandler × Bool)
    : Type 0 where
  valid : IsValid out.0
  keeps : (q : Role) → HasSocket (y.pointers q) → HasSocket (out.0.pointers q)
  sets : (q : Role) → Opens q rs → out.1 ≡ true → HasSocket (out.0.pointers q)

open_all-Opened :
    (joined : Bool) (rs : List (Role × Bool)) (y : IpcHandler)
    → IsValid y
    → Opened joined rs y (open_all joined rs y)
unfolding open_all
open_all-Opened joined [] y v = record { valid = v; keeps = λ q s. s; sets = λ q o. absurd o }
open_all-Opened joined ((r, works) ∷ rs) y v =
    let y' = (open_socket works r y).0 in
    let v' = open_socket-IsValid works r y v in
    let rest = open_all-Opened joined rs y' v' in
    elim (Bool-cases (open_socket works r y).1) [
      | inl made ↦ rw made (record {
        valid = rest.valid;
        keeps = λ q s. rest.keeps q (open_socket_lem works r q y (inl s));
        sets = λ q o e. elim o [
          | inl same ↦ rest.keeps q (open_socket_lem works r q y (inr (same, made)))
          | inr later ↦ rest.sets q later e
        ];
      })
      | inr threw ↦ rw threw (record {
        valid = v';
        keeps = λ q s. open_socket_lem works r q y (inl s);
        sets = λ q o e. absurd (ground arith);
      })
    ]

-- The invariant holds, and unless the result is an early return the role has a socket.
pub record IsReady (r : Role) (out : IpcHandler × Bool) : Type 0 where
  pub valid : IsValid out.0
  pub set : (out.1 ≡ false) ⊎ HasSocket (out.0.pointers r)

open_all-IsReady :
    (joined : Bool) (rs : List (Role × Bool)) (y : IpcHandler) (r : Role)
    → IsValid y
    → Opens r rs
    → IsReady r (open_all joined rs y)
open_all-IsReady joined rs y r v o =
    let d = open_all-Opened joined rs y v in
    record {
      valid = d.valid;
      set = elim (Bool-cases (open_all joined rs y).1) [
        | inl e ↦ inr (d.sets r o e)
        | inr e ↦ inl e
      ];
    }

if_running :
    (running : Bool) (r : Role) (y : IpcHandler) (out : IpcHandler × Bool)
    → IsValid y
    → IsReady r out
    → IsReady r (if running then out else (y, false))
if_running true r y out v h = h
if_running false r y out v h = record { valid = v; set = inl refl }

pub opener-IsReady :
    (r : Role) (o : Opening) (y : IpcHandler) → IsValid y → IsReady r (opener r o y)
unfolding connect_client bind_server
opener-IsReady state_sender o y v =
    if_running y.zmq.running state_sender y _ v
      (open_all-IsReady o.joined (client o) y state_sender v (inl refl))
opener-IsReady statistics_sender o y v =
    if_running y.zmq.running statistics_sender y _ v
      (open_all-IsReady o.joined (client o) y statistics_sender v (inr (inl refl)))
opener-IsReady command_receiver o y v =
    if_running y.zmq.running command_receiver y _ v
      (open_all-IsReady o.joined (client o) y command_receiver v (inr (inr (inl refl))))
opener-IsReady state_receiver o y v =
    if_running y.zmq.running state_receiver y _ v
      (open_all-IsReady o.joined (server o) y state_receiver v (inl refl))
opener-IsReady statistics_receiver o y v =
    if_running y.zmq.running statistics_receiver y _ v
      (open_all-IsReady o.joined (server o) y statistics_receiver v (inr (inl refl)))
opener-IsReady command_sender o y v =
    if_running y.zmq.running command_sender y _ v
      (open_all-IsReady o.joined (server o) y command_sender v (inr (inr (inl refl))))

pub ready-IsReady : (r : Role) (o : Opening) (y : IpcHandler) → IsValid y → IsReady r (ready r o y)
unfolding ready
ready-IsReady r o y v = go (y.pointers r) refl
  where
    go :
        (p : Option ℕ)
        → y.pointers r ≡ p
        → IsReady r (elim p [ none ↦ opener r o y | some _ ↦ (y, true) ])
    go none e = opener-IsReady r o y v
    go (some a) e = record { valid = v; set = inr (a, e) }
