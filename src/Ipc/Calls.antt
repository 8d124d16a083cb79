-- ===== src/Ipc/Calls.antt =====
-- The functions of `IPCHandler` that send (monitoring/IPCHandler.cpp).
use na62_farm_lib_networking.Base.{
  ℕ, codes, ◌||◌, ◌++◌, le_bytes, List, [], ◌∷◌, Option, none, some, Bool, true, false,
  if◌then◌else◌,
}
use na62_farm_lib_networking.Ipc.{
  Role, state_sender, statistics_sender, command_sender, IpcHandler, Opening, ready, deref,
  drop_socket,
}

-- `enum STATE`, and its values.
pub data State : Type 0 where
  off initializing running error timeout : State

abbrev pub value : State → ℕ
value off = 0
value initializing = 1
value running = 2
value error = 3
value timeout = 4

-- What a send does: `fails` is an exception other than a signal's.
pub data Sending : Type 0 where
  accepted interrupted fails : Sending

-- `socket->send(…)` where an exception is only logged.
unfoldable pub give : Role → Bool → List ℕ → IpcHandler → Option IpcHandler
give r works text y = elim (deref r y) [
  | none ↦ none
  | some a ↦ some (if works then record y { sent = y.sent ++ (a, text) ∷ [] } else y)
]

-- `if (!IsRunning()) return; if (!pointer && !opener()) return;`, and what follows.
unfoldable pub when_ready :
    Role → Opening → (IpcHandler → Option IpcHandler) → IpcHandler → Option IpcHandler
unfolding ready
when_ready r o body y =
    let (y', is_ready) = ready r o y in
    if y.zmq.running then (if is_ready then body y' else some y') else some y

-- The `sizeof(STATE)` bytes of an `enum` of 32 bits.
abbrev pub state_bytes : State → List ℕ
state_bytes new_state = le_bytes 4 (value new_state)

unfoldable pub update_state : Opening → Bool → State → IpcHandler → Option IpcHandler
unfolding when_ready give
update_state o works new_state =
    when_ready state_sender o (give state_sender works (state_bytes new_state))

abbrev pub is_empty : List ℕ → Bool
is_empty [] = true
is_empty (c ∷ text) = false

abbrev pub is_null : Role → IpcHandler → Bool
is_null r y = elim (y.pointers r) [ none ↦ true | some _ ↦ false ]

unfoldable pub send_statistics : Opening → Bool → List ℕ → List ℕ → IpcHandler → Option IpcHandler
unfolding when_ready give
send_statistics o works name values = when_ready statistics_sender o λ y.
    if is_null statistics_sender y || is_empty name || is_empty values
    then some y
    else give statistics_sender works (name ++ b':' ∷ values) y

pub send_error_message : Opening → Bool → List ℕ → IpcHandler → Option IpcHandler
unfolding send_statistics
send_error_message o works message = send_statistics o works (codes "ErrorMessage") message

-- What the `send` of a command leads to: only a serious exception drops the socket.
abbrev pub after_command : Sending → List ℕ → IpcHandler → Option IpcHandler
after_command accepted command y = give command_sender true command y
after_command interrupted command y = some y
after_command fails command y = drop_socket command_sender y

-- `connected` is what the socket says of itself.
unfoldable pub send_command : Opening → Bool → Sending → List ℕ → IpcHandler → Option IpcHandler
unfolding when_ready
send_command o connected outcome command = when_ready command_sender o λ y.
    if is_null command_sender y || is_empty command then some y else elim (deref command_sender y) [
      | none ↦ none
      | some a ↦ if connected then after_command outcome command y else some y
    ]
