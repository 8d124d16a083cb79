-- ===== src/Zmq/Context.antt =====
-- `Initialize` and `shutdown` (socket/ZMQHandler.cpp): the ZeroMQ context behind the static pointer.
use na62_farm_lib_networking.Base.{
  ℕ, suc, ◌≡◌, refl, List, [], ◌∷◌, Option, none, some, Bool, true, false, arith,
}
use na62_farm_lib_networking.Memory.{find, remove}

-- The contexts that were not deleted, each with its number of threads.
pub record Contexts : Type 0 where
  pub context_ : Option ℕ
  pub live : List (ℕ × List ℕ)
  pub next_context : ℕ

-- The pointer is null before the first call.
abbrev pub no_context : Contexts
no_context = record { context_ = none; live = []; next_context = 0 }

-- Whether the constructor succeeds; if it throws, the pointer stays. A context from before is not deleted.
unfoldable pub initialize_context : Bool → ℕ → Contexts → Contexts
initialize_context false number_of_io_threads c = c
initialize_context true number_of_io_threads c = record {
  context_ = some c.next_context;
  live = (c.next_context, number_of_io_threads ∷ []) ∷ c.live;
  next_context = suc c.next_context;
}

-- `delete context_`, which does nothing with a null pointer; the pointer stays. `none` is a context that
-- was deleted before.
unfoldable pub shutdown_context : Contexts → Option Contexts
shutdown_context c = elim c.context_ [
  | none ↦ some c
  | some k ↦ elim (find k c.live) [
    | none ↦ none
    | some threads ↦ some (record c { live = remove k c.live })
  ]
]

-- A context that was made can be shut down, which leaves those from before.
initialize-shutdown :
    (threads : ℕ) (c : Contexts)
    → (out : Contexts) × (shutdown_context (initialize_context true threads c) ≡ some out)
      × (out.live ≡ c.live)
unfolding initialize_context shutdown_context
initialize-shutdown threads c = (
  record { context_ = some c.next_context; live = c.live; next_context = suc c.next_context },
  ground arith,
  refl,
)
