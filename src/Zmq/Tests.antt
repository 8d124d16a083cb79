-- ===== src/Zmq/Tests.antt =====
-- Runs and examples for socket/ZMQHandler.h and socket/ZMQHandler.cpp.
use na62_farm_lib_networking.Base.{
  ◌>>=◌, ℕ, ◌↔◌, false, codes, pos, int_text, ◌+◌, ◌≡◌, refl, List, [], ◌∷◌, ◌++◌, none, some, true,
  replicate, arith,
}
use na62_farm_lib_networking.Zmq.{
  ZmqHandler, no_sockets, generate_socket, destroy_socket, stop, interrupted, fails, sends,
  destroyed, send_message,
}
use na62_farm_lib_networking.Zmq.Context.{initialize_context, shutdown_context}
use na62_farm_lib_networking.Zmq.Inproc.{
  get_ebl0_address, is_bound, all_bound, connect_inproc, connect_inproc-ends,
}
use na62_farm_lib_networking.Zmq.Registry.{
  IsRegistry, Op, generates, messages, stops, run_op, run_ops, run_ops-IsRegistry,
  send_message-fails,
}

-- Two sockets of which the first fails.
abbrev ops : List Op
ops =
    generates true (b'a' ∷ [])
    ∷ generates true (b'b' ∷ [])
    ∷ messages 0 (interrupted ∷ fails ∷ [])
    ∷ stops
    ∷ []

abbrev after_ops : ZmqHandler
after_ops = record {
  running = false;
  number_of_active_sockets = 1;
  bound_addresses = [];
  all_sockets = (1, b'b' ∷ []) ∷ [];
  next_socket = 2;
}

ran : run_ops ops no_sockets ≡ some after_ops
unfolding run_ops run_op generate_socket send_message destroy_socket stop
ran = refl

run_ops-IsRegistry_example : IsRegistry after_ops
run_ops-IsRegistry_example =
    run_ops-IsRegistry ops no_sockets after_ops (record { once = tt; counted = refl }) ran

abbrev still_running : ZmqHandler
still_running = record after_ops { running = true }

send_message-fails_example :
    (out : ZmqHandler) × (send_message 1
        (replicate 2 interrupted ++ fails ∷ sends ∷ [])
        still_running
      ≡ some (destroyed (some out)))
    × (out.number_of_active_sockets + 1 ≡ still_running.number_of_active_sockets)
    × (destroy_socket (some 1) out ≡ none)
send_message-fails_example =
    send_message-fails 2 1 (b'b' ∷ []) (sends ∷ []) still_running
      (record { once = (omega arith, tt); counted = refl }) refl refl

printed : get_ebl0_address (pos 12) ≡ codes "inproc://EB/12/L0"
unfolding get_ebl0_address int_text
printed = refl

-- Another thread binds the address in the second sleep.
abbrev late : List (List (List ℕ))
late = ((b'a' ∷ []) ∷ []) ∷ ((b'b' ∷ []) ∷ []) ∷ []

connect_inproc-ends_example :
    ((out : ZmqHandler) × (connect_inproc (b'b' ∷ []) late no_sockets ≡ some out)
      × (is_bound (b'b' ∷ []) out.bound_addresses ≡ true))
    ↔ (is_bound (b'b' ∷ []) (all_bound late no_sockets).bound_addresses ≡ true)
connect_inproc-ends_example = connect_inproc-ends (b'b' ∷ []) late no_sockets

-- A second shutdown deletes the context again.
shut_twice :
    (shutdown_context
        (initialize_context true 4 (record { context_ = none; live = []; next_context = 0 }))
      >>= shutdown_context)
    ≡ none
unfolding initialize_context shutdown_context
shut_twice = refl
