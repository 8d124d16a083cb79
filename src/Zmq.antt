-- ===== src/Zmq.antt =====
-- socket/ZMQHandler.h and socket/ZMQHandler.cpp: the registry of the sockets, the in-process addresses and
-- the loop that sends. What a ZeroMQ call does is an argument of each function.
--
-- A socket is known by a number that is never used again; those that are not yet destroyed are the keys
-- of `all_sockets`. Numbers of sockets are the values of an `int` that stays small.
pub mod Registry
pub mod Inproc
pub mod Context
mod Tests
use na62_farm_lib_networking.Base.{
  ℕ, suc, ◌+◌, ◌-◌, List, [], ◌∷◌, Option, none, some, Bool, true, false, ◌==◌, ◌||◌, if◌then◌else◌,
}
use na62_farm_lib_networking.Memory.{Heap, find, remove, delete_array}

pub record ZmqHandler : Type 0 where
  pub running : Bool
  pub number_of_active_sockets : ℕ
  pub bound_addresses : List (List ℕ)
  pub all_sockets : List (ℕ × List ℕ)
  pub next_socket : ℕ

-- The members before the first call.
abbrev pub no_sockets : ZmqHandler
no_sockets = record {
  running = true;
  number_of_active_sockets = 0;
  bound_addresses = [];
  all_sockets = [];
  next_socket = 0;
}

unfoldable pub stop : ZmqHandler → ZmqHandler
stop z = record z { running = false }

-- Whether the constructor and the two options succeed; if one throws, no socket is registered.
unfoldable pub generate_socket : Bool → List ℕ → ZmqHandler → ZmqHandler × Option ℕ
generate_socket false name z = (record z { next_socket = suc z.next_socket }, none)
generate_socket true name z = (
  record z {
    number_of_active_sockets = z.number_of_active_sockets + 1;
    all_sockets = (z.next_socket, name) ∷ z.all_sockets;
    next_socket = suc z.next_socket;
  },
  some z.next_socket,
)

-- `none` is the use of a socket that was destroyed before. A null pointer is ignored.
unfoldable pub destroy_socket : Option ℕ → ZmqHandler → Option ZmqHandler
destroy_socket none z = some z
destroy_socket (some socket) z = elim (find socket z.all_sockets) [
  | none ↦ none
  | some name ↦ some (record z {
    all_sockets = remove socket z.all_sockets;
    number_of_active_sockets = z.number_of_active_sockets - 1;
  })
]

-- The set of the bound addresses has the new one, if `bind` does not throw.
unfoldable pub bind_inproc : Bool → List ℕ → ZmqHandler → ZmqHandler
bind_inproc false address z = z
bind_inproc true address z = record z { bound_addresses = address ∷ z.bound_addresses }

-- What a round of the loop in `sendMessage` meets: another thread calls `Stop()` before the test, or
-- `send` returns, is interrupted by a signal, or throws something else.
pub data Attempt : Type 0 where
  stopped sends interrupted fails : Attempt

pub data Outcome : Type 0 where
  given_up sent : ZmqHandler → Outcome
  destroyed : Option ZmqHandler → Outcome

-- `none` is a loop that has not ended after these rounds.
unfoldable pub send_message : ℕ → List Attempt → ZmqHandler → Option Outcome
unfolding destroy_socket
send_message socket [] z = if z.running then none else some (given_up z)
send_message socket (stopped ∷ attempts) z = some (given_up (record z { running = false }))
send_message socket (sends ∷ attempts) z = if z.running then some (sent z) else some (given_up z)
send_message socket (interrupted ∷ attempts) z =
    let rest = send_message socket attempts z in if z.running then rest else some (given_up z)
send_message socket (fails ∷ attempts) z =
    if z.running then some (destroyed (destroy_socket (some socket) z)) else some (given_up z)

abbrev pub is_running : ZmqHandler → Bool
is_running z = z.running

-- What ZeroMQ calls when it is done with a message's buffer: `delete[]`, `none` for a second time.
pub free_zmq_message : ℕ → Heap → Option Heap
free_zmq_message message h = delete_array message h
