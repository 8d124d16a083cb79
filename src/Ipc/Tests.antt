-- ===== src/Ipc/Tests.antt =====
-- Runs and examples for monitoring/IPCHandler.h and monitoring/IPCHandler.cpp.
use na62_farm_lib_networking.Base.{
  ℕ, ◌≡◌, inr, refl, [], ◌∷◌, none, some, true, arith, if◌then◌else◌,
}
use na62_farm_lib_networking.Memory.{find}
use na62_farm_lib_networking.Zmq.{ZmqHandler, generate_socket, destroy_socket}
use na62_farm_lib_networking.Zmq.Registry.{IsRegistry, generates, run_op}
use na62_farm_lib_networking.Ipc.{
  state_receiver, IpcHandler, unused, Opening, open_socket, open_all, bind_server, ready,
  drop_socket,
}
use na62_farm_lib_networking.Ipc.Calls.{running, state_bytes}
use na62_farm_lib_networking.Ipc.Receives.{
  received, breaks, try_to_receive_state, set_timeout, receive, when_receiving, state_of,
}
use na62_farm_lib_networking.Ipc.ShutDown.{roles, shut_down}
use na62_farm_lib_networking.Ipc.ShutDown.Closed.{shut_down-closes}
use na62_farm_lib_networking.Ipc.ShutDown.One.{is_idle}
use na62_farm_lib_networking.Ipc.ShutDown.Left.{shut_down-received}
use na62_farm_lib_networking.Ipc.Safety.{Returns}
use na62_farm_lib_networking.Ipc.Run.{
  gets_state, sets_timeout, step, Calls, here, next, beside, Calls-IsValid,
}
use na62_farm_lib_networking.Ipc.Valid.{IsValid}

unused-IsValid : IsValid unused
unused-IsValid = record {
  registry = record { once = tt; counted = refl };
  good = λ r. tt;
  apart = λ r q. inr tt;
}

abbrev works : Opening
works = record { first = true; second = true; third = true; joined = true }

-- The server's three sockets are open.
abbrev bound : IpcHandler
bound = (bind_server works unused).0

bound-step : step (sets_timeout works true) unused ≡ some bound
unfolding step set_timeout ready bind_server open_all open_socket generate_socket
bound-step = refl

bound_state : bound.pointers state_receiver ≡ some 0
unfolding bind_server open_all open_socket generate_socket
bound_state = refl

bound_runs : bound.zmq.running ≡ true
unfolding bind_server open_all open_socket generate_socket
bound_runs = refl

run_bound : Calls unused bound
run_bound = next here (sets_timeout works true) bound-step

-- Someone else makes a socket.
abbrev bound_beside : IpcHandler
bound_beside = record bound { zmq = (generate_socket true (b'x' ∷ []) bound.zmq).0 }

run_beside : Calls unused bound_beside
unfolding run_op
run_beside = beside run_bound (generates true (b'x' ∷ [])) (λ r. tt) refl

Calls-IsValid_example :
    IsValid bound_beside
    × Returns (step (gets_state works (received (state_bytes running))) bound_beside)
Calls-IsValid_example =
    Calls-IsValid (gets_state works (received (state_bytes running))) unused-IsValid run_beside
      (omega arith)

-- A state's receiver that fails is dropped, and the next time-out uses its null pointer.
null_timeout :
    (y : IpcHandler) × (step (gets_state works breaks) bound ≡ some y)
    × (step (sets_timeout works true) y ≡ none)
unfolding step set_timeout ready bind_server open_all open_socket generate_socket
    try_to_receive_state when_receiving receive state_of drop_socket destroy_socket
null_timeout = (_, refl, refl)

bound-IsValid : IsValid bound
bound-IsValid =
    (Calls-IsValid (sets_timeout works true) unused-IsValid run_bound (inr (0, bound_state))).0

shut_down-closes_example :
    (z : ZmqHandler) × (shut_down bound ≡ some (record bound { zmq = z }))
    × IsRegistry z
    × ((a : ℕ)
        → find a z.all_sockets
          ≡ (if is_idle roles bound a then none else find a bound.zmq.all_sockets))
shut_down-closes_example = shut_down-closes bound bound-IsValid

shut_down-received_example :
    (y : IpcHandler) × (z : ZmqHandler) × (try_to_receive_state works
        (received (state_bytes running))
        bound
      ≡ some (y, 2))
    × (shut_down y ≡ some (record y { zmq = z }))
    × (find 0 z.all_sockets ≡ find 0 bound.zmq.all_sockets)
shut_down-received_example =
    shut_down-received running works bound 0 bound-IsValid bound_runs bound_state
