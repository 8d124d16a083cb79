-- ===== src/NetworkHandler/PCap/Startup/Outcome.antt =====
-- How the set-up of the raw socket ends (socket/PCapHandler.cpp).
use mathlib.Core.Option
use na62_farm_lib_networking.Base.{
  ℕ, ◌+◌, ◌-◌, ◌^◌, ◌<◌, ◌≤◌, ◌≡◌, ◌∙◌, refl, ap, List, [], ◌∷◌, ◌++◌, Option, none, some, Bool,
  true, false, inl, inr, ◌⊎◌, ◌&&◌, if◌then◌else◌, bit_or, length, take, drop, take_all,
  take-append, replicate, u64, arith, length-append,
}
use na62_farm_lib_networking.Ethernet.Iface.{ifnamsiz}
use na62_farm_lib_networking.NetworkHandler.PCap.Startup.{
  Answers, LeftOver, RawSocket, returns_early, exits, ready, strncpy, kernel_name, iff_promisc,
  set_index, set_options, open_socket,
}
use na62_farm_lib_networking.NetworkHandler.PCap.Startup.Names.{
  HasNoZero, c_string-padded, c_string-ended, strncpy_lem, drop-replicate,
}

-- The three options that must be set.
abbrev pub options_work : Answers → Bool
options_work a = a.reuse_address && a.bind_to_device && a.receive_timeout

HasNoZero-front : (s t : List ℕ) → HasNoZero (s ++ t) → HasNoZero s
HasNoZero-front [] t z = tt
HasNoZero-front (c ∷ s) t z = (z.0, HasNoZero-front s t z.1)

module _ (a : Answers) (left : LeftOver) (front : List ℕ) (c : ℕ) where
  -- The interface whose flags are asked for.
  abbrev pub promiscuous_name : List ℕ
  promiscuous_name = kernel_name (front ++ drop (length front) left.ifr_name)

  abbrev pub opened : ℕ → RawSocket
  opened fd = record {
    socket_ = fd;
    is_open = true;
    flags_set = (
      promiscuous_name,
      bit_or (Option.get_or (a.siocgifflags promiscuous_name) left.ifr_flags) iff_promisc,
    );
    reuses_address = some left.sockopt;
    bound_to = some (kernel_name (front ++ c ∷ []));
    timeout_usec = some 1000;
    buffer_size = if a.receive_buffer then some 524288 else none;
    sll_ifindex = Option.get_or (a.siocgifindex (take 15 (front ++ c ∷ []))) 0;
  }

  -- The socket before its options are set.
  abbrev asked : ℕ → RawSocket
  asked fd = record {
    socket_ = fd;
    is_open = true;
    flags_set = (
      promiscuous_name,
      bit_or (Option.get_or (a.siocgifflags promiscuous_name) left.ifr_flags) iff_promisc,
    );
    reuses_address = none;
    bound_to = none;
    timeout_usec = none;
    buffer_size = none;
    sll_ifindex = 0;
  }

  open_socket-asked :
      (fd : ℕ)
      → length front ≤ 15
      → a.socket ≡ some fd
      → open_socket a left (front ++ c ∷ []) ≡ set_options a left (front ++ c ∷ []) (asked fd)
  unfolding open_socket
  open_socket-asked fd short e =
      let size : u64 (length (front ++ c ∷ []) + (2 ^ 64 - 1)) ≡ length front =
        omega (arith, length-append front (c ∷ [])) in
      let copied =
        strncpy_lem left.ifr_name (front ++ c ∷ []) (length front) (omega arith)
          (omega (arith, length-append front (c ∷ [])))
        ∙ ap (λ l. some (l ++ drop (length front) left.ifr_name))
            (take-append (length front) front (c ∷ []) refl) in
      rw (e, size, copied) refl

  set_index_lem :
      (s : RawSocket)
      → HasNoZero (front ++ c ∷ [])
      → length front ≤ 15
      → set_index a left (front ++ c ∷ []) s
        ≡ some (
            ready (record s {
              sll_ifindex = Option.get_or (a.siocgifindex (take 15 (front ++ c ∷ []))) 0;
            }))
  unfolding set_index
  set_index_lem s z short =
      let name = front ++ c ∷ [] in
      let size : length name ≤ 16 = omega (arith, length-append front (c ∷ [])) in
      let copied : strncpy (replicate ifnamsiz 0) name (length name)
          ≡ some (name ++ drop (length name) (replicate 16 0)) =
        strncpy_lem (replicate ifnamsiz 0) name (length name) size (omega arith)
        ∙ ap (λ l. some (l ++ drop (length name) (replicate 16 0)))
            (take_all (length name) name (omega arith)) in
      let named : kernel_name (name ++ drop (length name) (replicate 16 0)) ≡ take 15 name =
        ap (λ l. kernel_name (name ++ l))
          (drop-replicate 0 (length name) 16 (16 - length name) (omega arith))
        ∙ c_string-padded 15 (16 - length name) name z in
      rw copied (
        ap (λ n. some (ready (record s { sll_ifindex = Option.get_or (a.siocgifindex n) 0 })))
          named)

  set_options_lem :
      (s : RawSocket)
      → HasNoZero (front ++ c ∷ [])
      → length front ≤ 15
      → options_work a ≡ true
      → set_options a left (front ++ c ∷ []) s
        ≡ some (
            ready (record s {
              reuses_address = some left.sockopt;
              bound_to = some (kernel_name (front ++ c ∷ []));
              timeout_usec = some 1000;
              buffer_size = if a.receive_buffer then some 524288 else none;
              sll_ifindex = Option.get_or (a.siocgifindex (take 15 (front ++ c ∷ []))) 0;
            }))
  unfolding set_options
  set_options_lem s z short w = ground (
    arith,
    set_index_lem
        (record s {
          reuses_address = some left.sockopt;
          bound_to = some (kernel_name (front ++ c ∷ []));
          timeout_usec = some 1000;
          buffer_size = if a.receive_buffer then some 524288 else none;
        })
        z short,
  )

  set_options-exits :
      (s : RawSocket)
      → options_work a ≡ false
      → (out : RawSocket) × (set_options a left (front ++ c ∷ []) s ≡ some (exits out))
        × (out.is_open ≡ false)
        × (out.socket_ ≡ s.socket_)
  unfolding set_options
  set_options-exits s w = go a.reuse_address a.bind_to_device a.receive_timeout refl refl refl
    where
      go :
          (p q r : Bool)
          → a.reuse_address ≡ p
          → a.bind_to_device ≡ q
          → a.receive_timeout ≡ r
          → (out : RawSocket) × (set_options a left (front ++ c ∷ []) s ≡ some (exits out))
            × (out.is_open ≡ false)
            × (out.socket_ ≡ s.socket_)
      go false q r e f g = (record s { is_open = false }, rw (e, set_options) refl, refl, refl)
      go true false r e f g = (
        record s { is_open = false; reuses_address = some left.sockopt },
        rw (e, set_options) (rw f refl),
        refl,
        refl,
      )
      go true true false e f g = (
        record s {
          is_open = false;
          reuses_address = some left.sockopt;
          bound_to = some (kernel_name (front ++ c ∷ []));
        },
        rw (e, set_options) (rw f (rw g refl)),
        refl,
        refl,
      )
      go true true true e f g = absurd (ground arith)

abbrev pub Ends : Answers → LeftOver → List ℕ → ℕ → Type 0
Ends a left front c =
    ((a.socket ≡ none) × (open_socket a left (front ++ c ∷ []) ≡ some returns_early))
    ⊎ ((fd : ℕ) × (a.socket ≡ some fd)
        × (options_work a ≡ true)
        × (open_socket a left (front ++ c ∷ []) ≡ some (ready (opened a left front c fd))))
    ⊎ ((fd : ℕ) × (a.socket ≡ some fd)
        × (options_work a ≡ false)
        × (out : RawSocket) × (open_socket a left (front ++ c ∷ []) ≡ some (exits out))
        × (out.is_open ≡ false)
        × (out.socket_ ≡ fd))

-- The name that is asked for lacks the last character, if the byte behind it is zero by chance.
promiscuous_name_lem :
    (a : Answers) (left : LeftOver) (front rest : List ℕ) (c : ℕ)
    → HasNoZero front
    → length front < 15
    → drop (length front) left.ifr_name ≡ 0 ∷ rest
    → promiscuous_name a left front c ≡ front
promiscuous_name_lem a left front rest c z lt e =
    ap (λ l. kernel_name (front ++ l)) e ∙ c_string-ended 15 front rest z lt

-- For a device name of one to 16 characters the set-up ends in one of three ways. Without a socket it
-- returns early. With a socket and the three options set it is ready: bound to the device, whose name the
-- kernel cuts to 15 characters, with a timeout
-- of 1000 μs, sending on the device's index, and with promiscuous mode asked for the name without
-- its last character, followed by what the uninitialised field held there. With a socket and
-- one of the three options refused, the program exits and the socket is closed.
pub open_socket-Ends :
    (a : Answers) (left : LeftOver) (front : List ℕ) (c : ℕ)
    → HasNoZero (front ++ c ∷ [])
    → length front ≤ 15
    → Ends a left front c
unfolding open_socket
open_socket-Ends a left front c z short = go a.socket refl (options_work a) refl
  where
    go : (s : Option ℕ) → a.socket ≡ s → (b : Bool) → options_work a ≡ b → Ends a left front c
    go none e b w = inl (e, rw (e, open_socket) refl)
    go (some fd) e true w = inr (
        inl (
          fd,
          e,
          w,
          open_socket-asked a left front c fd short e
              ∙ set_options_lem a left front c (asked a left front c fd) z short w,
        ))
    go (some fd) e false w =
        let r = set_options-exits a left front c (asked a left front c fd) w in
        inr (inr (fd, e, w, r.0, open_socket-asked a left front c fd short e ∙ r.1, r.2, r.3))
