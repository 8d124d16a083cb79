-- ===== src/Ipc/ShutDown/One.antt =====
-- What `shutDown` does to the socket of one role (monitoring/IPCHandler.cpp).
use na62_farm_lib_networking.Base.{
  ℕ, ◌≡◌, ◌∙◌, ◌&&◌, ◌||◌, not, ◌==◌, refl, ap, List, [], ◌∷◌, Option, none, some, Bool, true,
  false, arith, if◌then◌else◌,
}
use na62_farm_lib_networking.Memory.{find}
use na62_farm_lib_networking.Memory.Laws.{find-remove_self, find-remove_ne}
use na62_farm_lib_networking.Zmq.{ZmqHandler, destroy_socket}
use na62_farm_lib_networking.Zmq.Registry.{
  IsRegistry, without, destroy_socket_lem, without-IsRegistry,
}
use na62_farm_lib_networking.Ipc.{Role, IpcHandler}
use na62_farm_lib_networking.Ipc.ShutDown.{destroy_idle}
use na62_farm_lib_networking.Ipc.Valid.{IsGood}

abbrev pub points_to : Option ℕ → ℕ → Bool
points_to none b = false
points_to (some a) b = b == a

-- A role that is not active has the socket.
abbrev pub is_idle : List Role → IpcHandler → ℕ → Bool
is_idle [] y b = false
is_idle (r ∷ rs) y b = (not (y.active r) && points_to (y.pointers r) b) || is_idle rs y b

-- What is left after the sockets of some roles.
pub record Closes (rs : List Role) (y : IpcHandler) (z : ZmqHandler) : Type 0 where
  pub registry : IsRegistry z
  pub left :
      (b : ℕ) → find b z.all_sockets ≡ (if is_idle rs y b then none else find b y.zmq.all_sockets)

without-find :
    (a b : ℕ) (z : ZmqHandler)
    → IsRegistry z
    → find b (without a z).all_sockets ≡ (if b == a then none else find b z.all_sockets)
without-find a b z v =
    ground (
      arith,
      find-remove_self a z.next_socket z.all_sockets v.once,
      find-remove_ne b a z.all_sockets,
    )

-- The two tests of `destroy_idle`, on the flag and the pointer.
abbrev idle_outcome : Bool → Option ℕ → IpcHandler → Option IpcHandler
idle_outcome flag p y =
    if flag
    then some y
    else elim (destroy_socket p y.zmq) [ none ↦ none | some z ↦ some (record y { zmq = z }) ]

abbrev pub left_over : Bool → Option ℕ → IpcHandler → ℕ → Option (List ℕ)
left_over flag p y b =
    if (not flag && points_to p b) || false then none else find b y.zmq.all_sockets

idle_outcome-Closes :
    (flag : Bool) (p : Option ℕ) (y : IpcHandler)
    → IsRegistry y.zmq
    → IsGood y.zmq.all_sockets p
    → (z : ZmqHandler) × (idle_outcome flag p y ≡ some (record y { zmq = z }))
      × IsRegistry z
      × ((b : ℕ) → find b z.all_sockets ≡ left_over flag p y b)
unfolding destroy_socket
idle_outcome-Closes true p y v g = (y.zmq, refl, v, λ b. refl)
idle_outcome-Closes false none y v g = (y.zmq, refl, v, λ b. refl)
idle_outcome-Closes false (some a) y v (text, h) = (
  without a y.zmq,
  ap (λ o. elim o [ none ↦ none | some z ↦ some (record y { zmq = z }) ])
      (destroy_socket_lem a text y.zmq h),
  without-IsRegistry a text y.zmq h v,
  λ b. without-find a b y.zmq v ∙ ground arith,
)

pub destroy_idle-Closes :
    (r : Role) (y : IpcHandler)
    → IsRegistry y.zmq
    → IsGood y.zmq.all_sockets (y.pointers r)
    → (z : ZmqHandler) × (destroy_idle r y ≡ some (record y { zmq = z })) × Closes (r ∷ []) y z
unfolding destroy_idle
destroy_idle-Closes r y v g =
    let (z, e, registry, left) = idle_outcome-Closes (y.active r) (y.pointers r) y v g in
    (z, e, record { registry = registry; left = left })
