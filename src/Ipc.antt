-- ===== src/Ipc.antt =====
-- monitoring/IPCHandler.h and monitoring/IPCHandler.cpp: the pipes between the farm process and its
-- starter, over the sockets of `Zmq`. What a ZeroMQ call does is an argument of each function.
--
-- The six socket pointers and the six flags are two functions of the member's role. `none` in place of
-- a state is the use of a null pointer or of a destroyed socket, or a read past a message's end.
pub mod Calls
pub mod Receives
pub mod ShutDown
pub mod Valid
pub mod Sockets
pub mod Safety
pub mod Receiving
pub mod Outcomes
pub mod Beside
pub mod Endpoints
pub mod Run
mod Tests
use na62_farm_lib_networking.Base.{
  ℕ, codes, ◌&&◌, ◌+◌, ◌*◌, le_bytes, List, [], ◌∷◌, ◌++◌, Option, none, some, Bool, true, false,
  ◌==◌, if◌then◌else◌,
}
use na62_farm_lib_networking.Memory.{find}
use na62_farm_lib_networking.Zmq
use na62_farm_lib_networking.Zmq.{ZmqHandler, no_sockets, generate_socket, destroy_socket}

pub data Role : Type 0 where
  state_sender statistics_sender command_sender state_receiver statistics_receiver
        command_receiver :
      Role

abbrev pub index : Role → ℕ
index state_sender = 0
index statistics_sender = 1
index command_sender = 2
index state_receiver = 3
index statistics_receiver = 4
index command_receiver = 5

abbrev pub same_role : Role → Role → Bool
same_role r q = index r == index q

-- `sent` has every message that a socket accepted, with the socket, oldest first.
pub record IpcHandler : Type 0 where
  pub zmq : ZmqHandler
  pub pointers : Role → Option ℕ
  pub active : Role → Bool
  pub sent : List (ℕ × List ℕ)

-- The members before the first call.
abbrev pub unused : IpcHandler
unused = record { zmq = no_sockets; pointers = λ r. none; active = λ r. false; sent = [] }

abbrev pub is_running : IpcHandler → Bool
is_running y = Zmq.is_running y.zmq

abbrev pub set_pointer : Role → Option ℕ → IpcHandler → IpcHandler
set_pointer r socket y = record y { pointers = λ q. if same_role q r then socket else y.pointers q }

abbrev pub set_active : Role → Bool → IpcHandler → IpcHandler
set_active r flag y = record y { active = λ q. if same_role q r then flag else y.active q }

pub name : Role → List ℕ
name state_sender = codes "stateSender_"
name statistics_sender = codes "statisticsSender_"
name command_sender = codes "commandSender_"
name state_receiver = codes "stateReceiver_"
name statistics_receiver = codes "statisticsReceiver_"
name command_receiver = codes "commandReceiver_"

-- `r = GenerateSocket(…)`; false is an exception.
unfoldable pub open_socket : Bool → Role → IpcHandler → IpcHandler × Bool
unfolding generate_socket
open_socket works r y =
    let (z, socket) = generate_socket works (name r) y.zmq in
    elim socket [
      | none ↦ (record y { zmq = z }, false)
      | some a ↦ (set_pointer r (some a) (record y { zmq = z }), true)
    ]

-- Which of the three sockets are made, and whether the three calls of `connect` and `bind` all work.
pub record Opening : Type 0 where
  pub first : Bool
  pub second : Bool
  pub third : Bool
  pub joined : Bool

-- The body of a `try`: the first exception ends it.
unfoldable pub open_all : Bool → List (Role × Bool) → IpcHandler → IpcHandler × Bool
unfolding open_socket
open_all joined [] y = (y, joined)
open_all joined ((r, works) ∷ rs) y =
    let (y', made) = open_socket works r y in
    let rest = open_all joined rs y' in if made then rest else (y', false)

abbrev pub client : Opening → List (Role × Bool)
client o =
    (state_sender, o.first) ∷ (statistics_sender, o.second) ∷ (command_receiver, o.third) ∷ []

abbrev pub server : Opening → List (Role × Bool)
server o =
    (state_receiver, o.first) ∷ (statistics_receiver, o.second) ∷ (command_sender, o.third) ∷ []

unfoldable pub connect_client : Opening → IpcHandler → IpcHandler × Bool
unfolding open_all
connect_client o y = if is_running y then open_all o.joined (client o) y else (y, false)

unfoldable pub bind_server : Opening → IpcHandler → IpcHandler × Bool
unfolding open_all
bind_server o y = if is_running y then open_all o.joined (server o) y else (y, false)

-- Each role's sockets are opened by one of the two.
abbrev pub opener : Role → Opening → IpcHandler → IpcHandler × Bool
opener state_sender = connect_client
opener statistics_sender = connect_client
opener command_receiver = connect_client
opener state_receiver = bind_server
opener statistics_receiver = bind_server
opener command_sender = bind_server

-- `pointer || opener()`: false is an early return.
unfoldable pub ready : Role → Opening → IpcHandler → IpcHandler × Bool
ready r o y = elim (y.pointers r) [ none ↦ opener r o y | some _ ↦ (y, true) ]

-- The socket behind a pointer that is used.
abbrev pub deref : Role → IpcHandler → Option ℕ
deref r y = elim (y.pointers r) [
  | none ↦ none
  | some a ↦ elim (find a y.zmq.all_sockets) [ none ↦ none | some _ ↦ some a ]
]

-- `DestroySocket(pointer); pointer = nullptr;`
unfoldable pub drop_socket : Role → IpcHandler → Option IpcHandler
unfolding destroy_socket
drop_socket r y = elim (destroy_socket (y.pointers r) y.zmq) [
  | none ↦ none
  | some z ↦ some (set_pointer r none (record y { zmq = z }))
]
