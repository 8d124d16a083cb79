-- ===== src/Ipc/Endpoints.antt =====
-- Where the sockets of the two processes meet (monitoring/IPCHandler.cpp).
use na62_farm_lib_networking.Base.{ℕ, ◌≡◌, ◌++◌, refl, List, Bool, true, false, codes}
use na62_farm_lib_networking.Ipc.{
  Role, state_sender, statistics_sender, command_sender, state_receiver, statistics_receiver,
  command_receiver,
}

-- The three pipes of the protocol.
pub data Pipe : Type 0 where
  states statistics commands : Pipe

pub sender : Pipe → Role
sender states = state_sender
sender statistics = statistics_sender
sender commands = command_sender

pub receiver : Pipe → Role
receiver states = state_receiver
receiver statistics = statistics_receiver
receiver commands = command_receiver

-- Whether the call on the role's socket is `bind`, or `connect`.
unfoldable pub binds : Role → Bool
binds state_sender = false
binds statistics_sender = false
binds command_receiver = true
binds state_receiver = true
binds statistics_receiver = true
binds command_sender = false

unfoldable pub endpoint : Role → List ℕ
endpoint state_sender = codes "tcp://127.0.0.1:4500"
endpoint statistics_sender = codes "tcp://127.0.0.1:4501"
endpoint command_receiver = codes "tcp://*:4502"
endpoint state_receiver = codes "tcp://*:4500"
endpoint statistics_receiver = codes "tcp://*:4501"
endpoint command_sender = codes "tcp://127.0.0.1:4502"

-- The text of a pipe's port.
abbrev port : Pipe → List ℕ
port states = codes "4500"
port statistics = codes "4501"
port commands = codes "4502"

-- Of each pipe the receiver binds to all of this machine's addresses at the pipe's port, and the sender
-- connects to that port of this machine.
endpoints_meet :
    (p : Pipe)
    → (binds (sender p) ≡ false)
      × (binds (receiver p) ≡ true)
      × (endpoint (sender p) ≡ codes "tcp://127.0.0.1:" ++ port p)
      × (endpoint (receiver p) ≡ codes "tcp://*:" ++ port p)
unfolding sender receiver binds endpoint
endpoints_meet states = (refl, refl, refl, refl)
endpoints_meet statistics = (refl, refl, refl, refl)
endpoints_meet commands = (refl, refl, refl, refl)
