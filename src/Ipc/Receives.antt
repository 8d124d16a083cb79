-- ===== src/Ipc/Receives.antt =====
-- The functions of `IPCHandler` that receive, and the time-out (monitoring/IPCHandler.cpp).
use na62_farm_lib_networking.Base.{
  ℕ, ◌+◌, ◌*◌, List, ◌∷◌, Option, none, some, Bool, true, false, if◌then◌else◌,
}
use na62_farm_lib_networking.Ipc.{
  Role, state_receiver, statistics_receiver, command_receiver, IpcHandler, set_active, Opening,
  ready, deref, drop_socket,
}
use na62_farm_lib_networking.Ipc.Calls.{value, timeout}

-- What a receive does: `missed` is one that returns false, and `breaks` an exception other than a signal's.
pub data Receiving : Type 0 where
  received : List ℕ → Receiving
  missed signalled breaks : Receiving

-- The flag is set before `recv`, and cleared after it by the outcomes of `clears`.
abbrev pub flagged : (Receiving → Bool) → Role → Receiving → IpcHandler → IpcHandler
flagged clears r outcome y =
    if clears outcome then set_active r false (set_active r true y) else set_active r true y

-- An exception is only logged, and a serious one drops the socket.
abbrev pub after_receive : Role → Receiving → IpcHandler → Option (IpcHandler × Option (List ℕ))
after_receive r (received text) y = some (y, some text)
after_receive r missed y = some (y, none)
after_receive r signalled y = some (y, none)
after_receive r breaks y = elim (drop_socket r y) [ none ↦ none | some y' ↦ some (y', none) ]

-- `recv` on a role's socket, in its `try`.
unfoldable pub receive :
    (Receiving → Bool) → Role → Receiving → IpcHandler → Option (IpcHandler × Option (List ℕ))
receive clears r outcome y = elim (deref r y) [
  | none ↦ none
  | some a ↦ after_receive r outcome (flagged clears r outcome y)
]

-- The early returns before a receive.
unfoldable pub when_receiving :
    Role
    → Opening
    → (IpcHandler → Option (IpcHandler × Option (List ℕ)))
    → IpcHandler
    → Option (IpcHandler × Option (List ℕ))
unfolding ready
when_receiving r o body y =
    let (y', is_ready) = ready r o y in
    if y.zmq.running then (if is_ready then body y' else some (y', none)) else some (y, none)

-- `getNextCommand` ignores what `recv` returns, and clears the flag on every return without exception.
abbrev pub clears_command : Receiving → Bool
clears_command (received text) = true
clears_command missed = true
clears_command signalled = false
clears_command breaks = false

-- The other two return a message with the flag still set.
abbrev pub clears_missed : Receiving → Bool
clears_missed (received text) = false
clears_missed missed = true
clears_missed signalled = false
clears_missed breaks = false

-- The text is empty if there is none.
unfoldable pub get_next_command :
    Opening → Receiving → IpcHandler → Option (IpcHandler × Option (List ℕ))
unfolding when_receiving receive
get_next_command o outcome =
    when_receiving command_receiver o (receive clears_command command_receiver outcome)

unfoldable pub try_to_receive_statistics :
    Opening → Receiving → IpcHandler → Option (IpcHandler × Option (List ℕ))
unfolding when_receiving receive
try_to_receive_statistics o outcome =
    when_receiving statistics_receiver o (receive clears_missed statistics_receiver outcome)

-- `*((STATE*) msg.data())`: four bytes, whatever the message's length is.
unfoldable pub read_state : List ℕ → Option ℕ
read_state (a ∷ b ∷ c ∷ d ∷ more) = some (a + b * 256 + c * 65536 + d * 16777216)
read_state short = none

unfoldable pub state_of : Option (IpcHandler × Option (List ℕ)) → Option (IpcHandler × ℕ)
unfolding read_state
state_of none = none
state_of (some (y, none)) = some (y, value timeout)
state_of (some (y, some text)) = elim (read_state text) [ none ↦ none | some v ↦ some (y, v) ]

unfoldable pub try_to_receive_state : Opening → Receiving → IpcHandler → Option (IpcHandler × ℕ)
unfolding when_receiving receive state_of
try_to_receive_state o outcome y =
    state_of (when_receiving state_receiver o (receive clears_missed state_receiver outcome) y)

-- The two calls of `setsockopt`, on the statistics' and then the state's receiver; `works` is whether the
-- first one does, and an exception of the second changes nothing more.
abbrev pub set_timeouts : Bool → Option ℕ → Option ℕ → IpcHandler → Option IpcHandler
set_timeouts works none state_socket y = none
set_timeouts false (some a) state_socket y = some y
set_timeouts true (some a) none y = none
set_timeouts true (some a) (some b) y = some y

unfoldable pub set_timeout : Opening → Bool → IpcHandler → Option IpcHandler
unfolding ready
set_timeout o works y =
    let (y', is_ready) = ready statistics_receiver o y in
    if is_ready
    then set_timeouts works (deref statistics_receiver y') (deref state_receiver y') y'
    else some y'
