-- ===== src/Ipc/ShutDown.antt =====
-- `IPCHandler::shutDown` (monitoring/IPCHandler.cpp).
pub mod One
pub mod Closed
pub mod Left
use na62_farm_lib_networking.Base.{
  ℕ, codes, ◌||◌, ◌+◌, ◌*◌, ◌++◌, le_bytes, List, [], ◌∷◌, Option, none, some, Bool, true, false,
  if◌then◌else◌,
}
use na62_farm_lib_networking.Zmq.{ZmqHandler, destroy_socket}
use na62_farm_lib_networking.Ipc.{
  Role, state_sender, statistics_sender, command_sender, state_receiver, statistics_receiver,
  command_receiver, IpcHandler, set_active, Opening, ready, deref, drop_socket, set_pointer, opener,
  bind_server,
}

-- `if (!active) DestroySocket(pointer)`; the pointer stays.
unfoldable pub destroy_idle : Role → IpcHandler → Option IpcHandler
unfolding destroy_socket
destroy_idle r y = if y.active r then some y else elim (destroy_socket (y.pointers r) y.zmq) [
  | none ↦ none
  | some z ↦ some (record y { zmq = z })
]

abbrev pub roles : List Role
roles =
    state_sender ∷ statistics_sender ∷ command_sender ∷ state_receiver ∷ statistics_receiver
    ∷ command_receiver ∷ []

unfoldable pub destroy_all : List Role → IpcHandler → Option IpcHandler
unfolding destroy_idle
destroy_all [] y = some y
destroy_all (r ∷ rs) y = elim (destroy_idle r y) [ none ↦ none | some y' ↦ destroy_all rs y' ]

unfoldable pub shut_down : IpcHandler → Option IpcHandler
unfolding destroy_all
shut_down y = destroy_all roles y
