-- ===== src/Zmq/Registry.antt =====
-- The number of active sockets is that of the sockets registered (socket/ZMQHandler.cpp).
use mathlib.Core.Path.{subst}
use na62_farm_lib_networking.Base.{
  ℕ, ◌∙◌, sym, zero, suc, ◌++◌, replicate, Option-cases, inl, inr, ◌+◌, ◌-◌, ◌≡◌, refl, ap,
  if◌then◌else◌, List, [], ◌∷◌, Option, none, some, Bool, true, false, arith, length,
}
use na62_farm_lib_networking.Memory.{find, remove}
use na62_farm_lib_networking.Memory.Laws.{Below, Below-mono, remove-Below, find-remove_self}
use na62_farm_lib_networking.Zmq.{
  ZmqHandler, stop, generate_socket, destroy_socket, bind_inproc, Attempt, stopped, sends,
  interrupted, fails, Outcome, given_up, sent, destroyed, send_message,
}

-- Sockets are registered once, and counted.
pub record IsRegistry (z : ZmqHandler) : Type 0 where
  pub once : Below z.next_socket z.all_sockets
  pub counted : z.number_of_active_sockets ≡ length z.all_sockets

-- A call of one of the functions that change the state.
pub data Op : Type 0 where
  generates : Bool → List ℕ → Op
  destroys : Option ℕ → Op
  binds : Bool → List ℕ → Op
  messages : ℕ → List Attempt → Op
  stops : Op

-- What a call of `sendMessage` leaves.
abbrev pub after_message : Option Outcome → Option ZmqHandler
after_message none = none
after_message (some (given_up z)) = some z
after_message (some (sent z)) = some z
after_message (some (destroyed r)) = r

unfoldable pub run_op : Op → ZmqHandler → Option ZmqHandler
run_op (generates works name) z = some (generate_socket works name z).0
run_op (destroys socket) z = destroy_socket socket z
run_op (binds works address) z = some (bind_inproc works address z)
run_op (messages socket attempts) z = after_message (send_message socket attempts z)
run_op stops z = some (stop z)

unfoldable pub run_ops : List Op → ZmqHandler → Option ZmqHandler
unfolding run_op
run_ops [] z = some z
run_ops (op ∷ ops) z = elim (run_op op z) [ none ↦ none | some z' ↦ run_ops ops z' ]

pub generate_socket-IsRegistry :
    (works : Bool) (name : List ℕ) (z : ZmqHandler)
    → IsRegistry z
    → IsRegistry (generate_socket works name z).0
unfolding generate_socket
generate_socket-IsRegistry false name z v = record {
  once = Below-mono z.next_socket (suc z.next_socket) z.all_sockets (omega arith) v.once;
  counted = v.counted;
}
generate_socket-IsRegistry true name z v = record {
  once = (omega arith, v.once);
  counted = omega (arith, v.counted);
}

pub length-remove :
    (name : List ℕ) (a : ℕ) (cells : List (ℕ × List ℕ))
    → find a cells ≡ some name
    → length (remove a cells) + 1 ≡ length cells
length-remove name a [] e = absurd (ground arith)
length-remove name a ((b, other) ∷ cells) e = ground (arith, length-remove name a cells)

-- The registry after a registered socket is destroyed.
abbrev pub without : ℕ → ZmqHandler → ZmqHandler
without socket z = record z {
  all_sockets = remove socket z.all_sockets;
  number_of_active_sockets = z.number_of_active_sockets - 1;
}

pub destroy_socket_lem :
    (socket : ℕ) (name : List ℕ) (z : ZmqHandler)
    → find socket z.all_sockets ≡ some name
    → destroy_socket (some socket) z ≡ some (without socket z)
unfolding destroy_socket
destroy_socket_lem socket name z e = rw (e, destroy_socket) refl

pub destroy_socket-none :
    (socket : ℕ) (z : ZmqHandler)
    → find socket z.all_sockets ≡ none
    → destroy_socket (some socket) z ≡ none
unfolding destroy_socket
destroy_socket-none socket z e = rw (e, destroy_socket) refl

pub without-IsRegistry :
    (socket : ℕ) (name : List ℕ) (z : ZmqHandler)
    → find socket z.all_sockets ≡ some name
    → IsRegistry z
    → IsRegistry (without socket z)
without-IsRegistry socket name z e v = record {
  once = remove-Below socket z.next_socket z.all_sockets v.once;
  counted = omega (arith, v.counted, length-remove name socket z.all_sockets e);
}

destroy_socket-IsRegistry :
    (socket : Option ℕ) (z out : ZmqHandler)
    → IsRegistry z
    → destroy_socket socket z ≡ some out
    → IsRegistry out
unfolding destroy_socket
destroy_socket-IsRegistry none z out v e = let same : z ≡ out = cc in subst IsRegistry same v
destroy_socket-IsRegistry (some socket) z out v e =
    elim (Option-cases (find socket z.all_sockets)) [
      | inl gone ↦ let refused = destroy_socket-none socket z gone in absurd cc
      | inr (name, f) ↦
          let done = destroy_socket_lem socket name z f in
          let same : without socket z ≡ out = cc in
          subst IsRegistry same (without-IsRegistry socket name z f v)
    ]

-- A test of the loop: the rest of it, or nothing is done.
pub tested_lem :
    (running : Bool) (r : Option Outcome) (z out : ZmqHandler) (P : Type 0)
    → (some z ≡ some out → P)
    → (after_message r ≡ some out → P)
    → after_message (if running then r else some (given_up z)) ≡ some out
    → P
tested_lem true r z out P off on e = on e
tested_lem false r z out P off on e = off e

same_IsRegistry : (z out : ZmqHandler) → IsRegistry z → some z ≡ some out → IsRegistry out
same_IsRegistry z out v e = let same : z ≡ out = cc in subst IsRegistry same v

send_message-IsRegistry :
    (socket : ℕ) (attempts : List Attempt) (z out : ZmqHandler)
    → IsRegistry z
    → after_message (send_message socket attempts z) ≡ some out
    → IsRegistry out
unfolding send_message
send_message-IsRegistry socket [] z out v e =
    tested_lem z.running none z out (IsRegistry out) (same_IsRegistry z out v) (λ f. absurd cc) e
send_message-IsRegistry socket (stopped ∷ attempts) z out v e =
    same_IsRegistry (record z { running = false }) out
      (record { once = v.once; counted = v.counted }) e
send_message-IsRegistry socket (sends ∷ attempts) z out v e =
    tested_lem z.running (some (sent z)) z out (IsRegistry out) (same_IsRegistry z out v)
      (same_IsRegistry z out v) e
send_message-IsRegistry socket (interrupted ∷ attempts) z out v e =
    tested_lem z.running (send_message socket attempts z) z out (IsRegistry out)
      (same_IsRegistry z out v) (send_message-IsRegistry socket attempts z out v) e
send_message-IsRegistry socket (fails ∷ attempts) z out v e =
    tested_lem z.running (some (destroyed (destroy_socket (some socket) z))) z out (IsRegistry out)
      (same_IsRegistry z out v) (destroy_socket-IsRegistry (some socket) z out v) e

pub run_op-IsRegistry :
    (op : Op) (z out : ZmqHandler) → IsRegistry z → run_op op z ≡ some out → IsRegistry out
unfolding run_op stop bind_inproc
run_op-IsRegistry (generates works name) z out v e =
    let same : (generate_socket works name z).0 ≡ out = cc in
    subst IsRegistry same (generate_socket-IsRegistry works name z v)
run_op-IsRegistry (destroys socket) z out v e = destroy_socket-IsRegistry socket z out v e
run_op-IsRegistry (binds false address) z out v e =
    let same : z ≡ out = cc in subst IsRegistry same v
run_op-IsRegistry (binds true address) z out v e =
    let same : bind_inproc true address z ≡ out = cc in
    subst IsRegistry same (record { once = v.once; counted = v.counted })
run_op-IsRegistry (messages socket attempts) z out v e =
    send_message-IsRegistry socket attempts z out v e
run_op-IsRegistry stops z out v e =
    let same : stop z ≡ out = cc in
    subst IsRegistry same (record { once = v.once; counted = v.counted })

-- After any calls that end and never use a destroyed socket, from any registry in which it holds, the number
-- of active sockets is that of the sockets that are registered, each of them once.
pub run_ops-IsRegistry :
    (ops : List Op) (z out : ZmqHandler) → IsRegistry z → run_ops ops z ≡ some out → IsRegistry out
unfolding run_ops
run_ops-IsRegistry [] z out v e = let same : z ≡ out = cc in subst IsRegistry same v
run_ops-IsRegistry (op ∷ ops) z out v e = elim (Option-cases (run_op op z)) [
  | inl gone ↦
      let refused : run_ops (op ∷ ops) z ≡ none =
        ap (λ r. elim r [ none ↦ none | some z' ↦ run_ops ops z' ]) gone in
      absurd cc
  | inr (z', f) ↦
      run_ops-IsRegistry ops z' out (run_op-IsRegistry op z z' v f)
        (sym (ap (λ r. elim r [ none ↦ none | some z'' ↦ run_ops ops z'' ]) f) ∙ e)
]

-- While the handler runs, and however often a signal interrupts it, sending over a registered socket that
-- then fails destroys the socket: one socket fewer is active, and a second destruction of it uses a socket that is gone.
pub send_message-fails :
    (interruptions : ℕ) (socket : ℕ) (name : List ℕ) (more : List Attempt) (z : ZmqHandler)
    → IsRegistry z
    → z.running ≡ true
    → find socket z.all_sockets ≡ some name
    → (out : ZmqHandler) × (send_message socket
          (replicate interruptions interrupted ++ fails ∷ more)
          z
        ≡ some (destroyed (some out)))
      × (out.number_of_active_sockets + 1 ≡ z.number_of_active_sockets)
      × (destroy_socket (some socket) out ≡ none)
unfolding send_message
send_message-fails zero socket name more z v on e = (
  without socket z,
  ap (λ b. if b then some (destroyed (destroy_socket (some socket) z)) else some (given_up z)) on
      ∙ ap (λ o. some (destroyed o)) (destroy_socket_lem socket name z e),
  omega (arith, v.counted, length-remove name socket z.all_sockets e),
  destroy_socket-none socket (without socket z)
      (find-remove_self socket z.next_socket z.all_sockets v.once),
)
send_message-fails (suc k) socket name more z v on e =
    let r = send_message-fails k socket name more z v on e in
    (
      r.0,
      ap
            (λ b.
              if b
              then send_message socket (replicate k interrupted ++ fails ∷ more) z
              else some (given_up z))
            on
          ∙ r.1,
      r.2,
      r.3,
    )
