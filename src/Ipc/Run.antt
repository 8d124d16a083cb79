-- ===== src/Ipc/Run.antt =====
-- All calls but `shutDown`, in any order (monitoring/IPCHandler.cpp).
use na62_farm_lib_networking.Base.{ℕ, ◌≡◌, ◌≤◌, ◌⊎◌, List, Option, none, some, Bool, length}
use na62_farm_lib_networking.Zmq.{ZmqHandler}
use na62_farm_lib_networking.Zmq.Registry
use na62_farm_lib_networking.Zmq.Registry.{run_op}
use na62_farm_lib_networking.Ipc.Beside.{Avoids, run_op-IsValid}
use na62_farm_lib_networking.Ipc.{
  Role, Opening, state_receiver, statistics_receiver, command_receiver, IpcHandler, ready,
}
use na62_farm_lib_networking.Ipc.Calls.{State, Sending, update_state, send_statistics, send_command}
use na62_farm_lib_networking.Ipc.Receives.{
  Receiving, received, missed, signalled, breaks, get_next_command, try_to_receive_statistics,
  try_to_receive_state, set_timeout, clears_command, clears_missed,
}
use na62_farm_lib_networking.Ipc.Valid.{IsValid}
use na62_farm_lib_networking.Ipc.Sockets.{HasSocket, ready-IsReady}
use na62_farm_lib_networking.Ipc.Safety.{
  Returns, update_state-Returns, send_statistics-Returns, send_command-Returns,
}
use na62_farm_lib_networking.Ipc.Receiving.{text_of, when_receiving-Returns}
use na62_farm_lib_networking.Ipc.Outcomes.{
  state_after, state_after-Returns, Returns-IsValid, state_of-IsValid, set_timeouts-IsValid, IsLong,
  state_of-Returns, set_timeout-Returns,
}

pub data Op : Type 0 where
  updates : Opening → Bool → State → Op
  reports : Opening → Bool → List ℕ → List ℕ → Op
  commands : Opening → Bool → Sending → List ℕ → Op
  gets_command : Opening → Receiving → Op
  gets_statistics : Opening → Receiving → Op
  gets_state : Opening → Receiving → Op
  sets_timeout : Opening → Bool → Op

unfoldable pub step : Op → IpcHandler → Option IpcHandler
step (updates o works new_state) y = update_state o works new_state y
step (reports o works name values) y = send_statistics o works name values y
step (commands o connected outcome command) y = send_command o connected outcome command y
step (gets_command o outcome) y = state_after (get_next_command o outcome y)
step (gets_statistics o outcome) y = state_after (try_to_receive_statistics o outcome y)
step (gets_state o outcome) y = state_after (try_to_receive_state o outcome y)
step (sets_timeout o works) y = set_timeout o works y

-- What a call asks for: a state message that is not shorter than a state, and for a time-out that the
-- statistics' receiver is not open without the state's.
abbrev pub Allowed : Op → IpcHandler → Type 0
Allowed (updates o works new_state) y = Unit {0}
Allowed (reports o works name values) y = Unit {0}
Allowed (commands o connected outcome command) y = Unit {0}
Allowed (gets_command o outcome) y = Unit {0}
Allowed (gets_statistics o outcome) y = Unit {0}
Allowed (gets_state o (received text)) y = 4 ≤ length text
Allowed (gets_state o missed) y = Unit {0}
Allowed (gets_state o signalled) y = Unit {0}
Allowed (gets_state o breaks) y = Unit {0}
Allowed (sets_timeout o works) y =
    (y.pointers statistics_receiver ≡ none) ⊎ HasSocket (y.pointers state_receiver)

-- A call of one of the functions, or one of ZMQHandler that someone else makes.
pub data Calls (y : IpcHandler) : IpcHandler → Type 0 where
  here : Calls y y
  next : {z w : IpcHandler} → Calls y z → (op : Op) → step op z ≡ some w → Calls y w
  beside :
      {z : IpcHandler} {other : ZmqHandler}
      → Calls y z
      → (op : Registry.Op) → ((r : Role) → Avoids op (z.pointers r))
      → run_op op z.zmq ≡ some other
      → Calls y (record z { zmq = other })

step-IsValid : (op : Op) (y w : IpcHandler) → IsValid y → step op y ≡ some w → IsValid w
unfolding step get_next_command try_to_receive_statistics try_to_receive_state set_timeout
step-IsValid (updates o works new_state) y w v e =
    Returns-IsValid _ w e (update_state-Returns o works new_state y v)
step-IsValid (reports o works name values) y w v e =
    Returns-IsValid _ w e (send_statistics-Returns o works name values y v)
step-IsValid (commands o connected outcome command) y w v e =
    Returns-IsValid _ w e (send_command-Returns o connected outcome command y v)
step-IsValid (gets_command o outcome) y w v e = Returns-IsValid _ w e (
    state_after-Returns outcome _
      (when_receiving-Returns clears_command command_receiver o outcome y v))
step-IsValid (gets_statistics o outcome) y w v e = Returns-IsValid _ w e (
    state_after-Returns outcome _
      (when_receiving-Returns clears_missed statistics_receiver o outcome y v))
step-IsValid (gets_state o outcome) y w v e =
    state_of-IsValid outcome _ w (when_receiving-Returns clears_missed state_receiver o outcome y v)
      e
step-IsValid (sets_timeout o works) y w v e =
    set_timeouts-IsValid works (ready statistics_receiver o y).1 _ _
      (ready statistics_receiver o y).0 w (ready-IsReady statistics_receiver o y v).valid e

IsLong-Allowed :
    (o : Opening) (outcome : Receiving) (y : IpcHandler)
    → Allowed (gets_state o outcome) y
    → IsLong (text_of outcome)
IsLong-Allowed o (received text) y a = a
IsLong-Allowed o missed y a = tt
IsLong-Allowed o signalled y a = tt
IsLong-Allowed o breaks y a = tt

step-Returns : (op : Op) (y : IpcHandler) → IsValid y → Allowed op y → Returns (step op y)
unfolding step get_next_command try_to_receive_statistics try_to_receive_state
step-Returns (updates o works new_state) y v a = update_state-Returns o works new_state y v
step-Returns (reports o works name values) y v a = send_statistics-Returns o works name values y v
step-Returns (commands o connected outcome command) y v a =
    send_command-Returns o connected outcome command y v
step-Returns (gets_command o outcome) y v a =
    state_after-Returns outcome _
      (when_receiving-Returns clears_command command_receiver o outcome y v)
step-Returns (gets_statistics o outcome) y v a =
    state_after-Returns outcome _
      (when_receiving-Returns clears_missed statistics_receiver o outcome y v)
step-Returns (gets_state o outcome) y v a =
    state_of-Returns outcome _ (IsLong-Allowed o outcome y a)
      (when_receiving-Returns clears_missed state_receiver o outcome y v)
step-Returns (sets_timeout o works) y v a = set_timeout-Returns o works y v a

IsValid-Calls : {y z : IpcHandler} → Calls y z → IsValid y → IsValid z
IsValid-Calls here v = v
IsValid-Calls (next {z} {w} calls op e) v = step-IsValid op z w (IsValid-Calls calls v) e
IsValid-Calls (beside {z} {other} calls op a e) v =
    run_op-IsValid op z other (IsValid-Calls calls v) a e

-- After any calls but `shutDown`, in any order and whatever the ZeroMQ calls do, and between them any calls
-- of ZMQHandler by others that do not destroy these sockets or send over them, the sockets are
-- registered once and counted, and each of the six pointers is null or has a registered socket of its
-- own. The next call then returns, and uses no null pointer and no destroyed socket, unless it reads
-- a state from a message shorter than a state, or sets a time-out while the statistics' receiver is open
-- and the state's is not.
pub Calls-IsValid :
    {y z : IpcHandler} (op : Op)
    → IsValid y
    → Calls y z
    → Allowed op z
    → IsValid z × Returns (step op z)
Calls-IsValid {z = z} op v calls a = let w = IsValid-Calls calls v in (w, step-Returns op z w a)
