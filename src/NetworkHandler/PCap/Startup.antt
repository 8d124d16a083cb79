-- ===== src/NetworkHandler/PCap/Startup.antt =====
-- The constructor and the destructor of the build over a raw socket (socket/PCapHandler.cpp). What the
-- system calls answer is an argument.
pub mod Names
pub mod Outcome
pub mod Started
use mathlib.Core.Option
use mathlib.Core.Path.{subst}
use na62_farm_lib_networking.Base.{
  ℕ, zero, suc, ◌+◌, ◌-◌, ◌^◌, ◌*◌, ◌<◌, ◌≤◌, ◌≡◌, ◌≢◌, ◌∙◌, ◌⊎◌, inl, inr, refl, sym, ap, List, [],
  ◌∷◌, ◌++◌, ◌>>=◌, Option, none, some, Bool, true, false, Bool-cases, ◌&&◌, if◌then◌else◌, ltb,
  ◌==◌, bit_or, length, take, drop, take_all, take-append, replicate, u64, arith,
}
use na62_farm_lib_networking.Ethernet.Frames.{MyAddress}
use na62_farm_lib_networking.Ethernet.Iface.{
  Kernel, ifnamsiz, get_mac_of_interface, get_ip_of_interface,
}

-- The socket's number, or none for -1; the flags and the index of the interface of a name; and
-- whether each option can be set.
pub record Answers : Type 0 where
  pub socket : Option ℕ
  pub siocgifflags : List ℕ → Option ℕ
  pub reuse_address : Bool
  pub bind_to_device : Bool
  pub receive_timeout : Bool
  pub receive_buffer : Bool
  pub siocgifindex : List ℕ → Option ℕ

-- What memory holds that the code does not initialise: the name, the flags and the value for `SO_REUSEADDR`.
pub record LeftOver : Type 0 where
  pub ifr_name : List ℕ
  pub ifr_flags : ℕ
  pub sockopt : ℕ

-- The flags that are asked for, with the name of their interface, and the options that the socket has.
pub record RawSocket : Type 0 where
  pub socket_ : ℕ
  pub is_open : Bool
  pub flags_set : List ℕ × ℕ
  pub reuses_address : Option ℕ
  pub bound_to : Option (List ℕ)
  pub timeout_usec : Option ℕ
  pub buffer_size : Option ℕ
  pub sll_ifindex : ℕ

pub data End : Type 0 where
  returns_early : End
  exits ready : RawSocket → End

-- `strncpy(ifr_name, name, n)` fills `n` bytes; `none` is a write past the field.
pub strncpy : List ℕ → List ℕ → ℕ → Option (List ℕ)
strncpy field name n =
    if ltb ifnamsiz n
    then none
    else some ((take n name ++ replicate (n - length name) 0) ++ drop n field)

-- The kernel reads a name up to its terminator, and cuts it to 15 bytes.
pub c_string : List ℕ → List ℕ
c_string [] = []
c_string (c ∷ s) = let rest = c_string s in if c == 0 then [] else c ∷ rest

abbrev pub kernel_name : List ℕ → List ℕ
kernel_name field = c_string (take (ifnamsiz - 1) field)

abbrev pub iff_promisc : ℕ
iff_promisc = 0x100

-- `close(socket_); exit(EXIT_FAILURE)`, or the next call.
abbrev or_exit : Bool → RawSocket → (RawSocket → Option End) → Option End
or_exit works s next = if works then next s else some (exits (record s { is_open = false }))

module _ (a : Answers) (left : LeftOver) (device_name : List ℕ) where
  set_index : RawSocket → Option End
  unfolding strncpy c_string
  set_index s = strncpy (replicate ifnamsiz 0) device_name (length device_name) >>= λ field.
      some (ready (record s { sll_ifindex = Option.get_or (a.siocgifindex (kernel_name field)) 0 }))

  set_options : RawSocket → Option End
  unfolding set_index
  set_options s = or_exit a.reuse_address s λ s1.
      or_exit a.bind_to_device (record s1 { reuses_address = some left.sockopt })
        λ s2.
          or_exit a.receive_timeout (record s2 { bound_to = some (kernel_name device_name) })
            λ s3. set_index (record s3 {
              timeout_usec = some 1000;
              buffer_size = if a.receive_buffer then some (1024 * 512) else none;
            })

  -- `deviceName.length() - 1` is one of 64 bits.
  unfoldable pub open_socket : Option End
  unfolding set_options strncpy c_string
  open_socket = elim a.socket [
    | none ↦ some returns_early
    | some fd ↦
        strncpy left.ifr_name device_name (u64 (length device_name + (2 ^ 64 - 1))) >>= λ field.
        let name = kernel_name field in
        set_options (record {
          socket_ = fd;
          is_open = true;
          flags_set =
              (name, bit_or (Option.get_or (a.siocgifflags name) left.ifr_flags) iff_promisc);
          reuses_address = none;
          bound_to = none;
          timeout_usec = none;
          buffer_size = none;
          sll_ifindex = 0;
        })
  ]

  unfoldable pub new_network_handler : Kernel → ℕ → Option (MyAddress × End)
  unfolding open_socket
  new_network_handler kernel left_over = do
    mac ← get_mac_of_interface kernel device_name
    end ← open_socket
    some (record { my_mac = mac; my_ip = get_ip_of_interface kernel left_over device_name }, end)

-- `close(socket_)`
pub close_socket : RawSocket → RawSocket
close_socket s = record s { is_open = false }
