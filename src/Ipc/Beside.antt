-- ===== src/Ipc/Beside.antt =====
-- Other users of the ZMQ handler beside IPCHandler's functions (monitoring/IPCHandler.cpp,
-- socket/ZMQHandler.cpp).
use mathlib.Core.Path.{subst}
use na62_farm_lib_networking.Base.{
  ℕ, ◌≡◌, ◌∙◌, sym, inl, inr, List, [], ◌∷◌, Option, none, some, true, false, Option-cases,
}
use na62_farm_lib_networking.Memory.{find}
use na62_farm_lib_networking.Zmq.{
  ZmqHandler, stop, generate_socket, destroy_socket, bind_inproc, Attempt, stopped, sends,
  interrupted, fails, sent, destroyed, send_message,
}
use na62_farm_lib_networking.Zmq.Registry.{
  IsRegistry, Op, generates, destroys, binds, messages, stops, after_message, run_op,
  run_op-IsRegistry, tested_lem, without, destroy_socket_lem, destroy_socket-none,
}
use na62_farm_lib_networking.Ipc.{Role, IpcHandler}
use na62_farm_lib_networking.Ipc.Valid.{IsGood, AreApart, IsValid, IsGood-newer, IsGood-remove}

-- The call does not destroy the pointer's socket, nor send over it.
abbrev pub Avoids : Op → Option ℕ → Type 0
Avoids (generates works name) p = Unit {0}
Avoids (destroys socket) p = AreApart socket p
Avoids (binds works address) p = Unit {0}
Avoids (messages socket attempts) p = AreApart (some socket) p
Avoids stops p = Unit {0}

kept_sockets :
    (z out : ZmqHandler) (p : Option ℕ)
    → some z ≡ some out
    → IsGood z.all_sockets p
    → IsGood out.all_sockets p
kept_sockets z out p e g = let same : z ≡ out = cc in subst (λ x. IsGood x.all_sockets p) same g

destroy_socket-IsGood :
    (socket : Option ℕ) (z out : ZmqHandler) (p : Option ℕ)
    → AreApart socket p
    → destroy_socket socket z ≡ some out
    → IsGood z.all_sockets p
    → IsGood out.all_sockets p
unfolding destroy_socket
destroy_socket-IsGood none z out p a e g = kept_sockets z out p e g
destroy_socket-IsGood (some socket) z out p a e g =
    elim (Option-cases (find socket z.all_sockets)) [
      | inl gone ↦ let refused = destroy_socket-none socket z gone in absurd cc
      | inr (name, f) ↦
          kept_sockets (without socket z) out p (sym (destroy_socket_lem socket name z f) ∙ e)
            (IsGood-remove socket z.all_sockets p a g)
    ]

send_message-IsGood :
    (socket : ℕ) (attempts : List Attempt) (z out : ZmqHandler) (p : Option ℕ)
    → AreApart (some socket) p
    → after_message (send_message socket attempts z) ≡ some out
    → IsGood z.all_sockets p
    → IsGood out.all_sockets p
unfolding send_message
send_message-IsGood socket [] z out p a e g =
    tested_lem z.running none z out (IsGood out.all_sockets p) (λ f. kept_sockets z out p f g)
      (λ f. absurd cc) e
send_message-IsGood socket (stopped ∷ attempts) z out p a e g =
    kept_sockets (record z { running = false }) out p e g
send_message-IsGood socket (sends ∷ attempts) z out p a e g =
    tested_lem z.running (some (sent z)) z out (IsGood out.all_sockets p)
      (λ f. kept_sockets z out p f g) (λ f. kept_sockets z out p f g) e
send_message-IsGood socket (interrupted ∷ attempts) z out p a e g =
    tested_lem z.running (send_message socket attempts z) z out (IsGood out.all_sockets p)
      (λ f. kept_sockets z out p f g) (λ f. send_message-IsGood socket attempts z out p a f g) e
send_message-IsGood socket (fails ∷ attempts) z out p a e g =
    tested_lem z.running (some (destroyed (destroy_socket (some socket) z))) z out
      (IsGood out.all_sockets p) (λ f. kept_sockets z out p f g)
      (λ f. destroy_socket-IsGood (some socket) z out p a f g) e

run_op-IsGood :
    (op : Op) (z out : ZmqHandler) (p : Option ℕ)
    → IsRegistry z
    → Avoids op p
    → run_op op z ≡ some out
    → IsGood z.all_sockets p
    → IsGood out.all_sockets p
unfolding run_op generate_socket bind_inproc stop
run_op-IsGood (generates false name) z out p v a e g =
    kept_sockets (generate_socket false name z).0 out p e g
run_op-IsGood (generates true name) z out p v a e g =
    kept_sockets (generate_socket true name z).0 out p e (IsGood-newer z name p v g)
run_op-IsGood (destroys socket) z out p v a e g = destroy_socket-IsGood socket z out p a e g
run_op-IsGood (binds false address) z out p v a e g = kept_sockets z out p e g
run_op-IsGood (binds true address) z out p v a e g =
    kept_sockets (bind_inproc true address z) out p e g
run_op-IsGood (messages socket attempts) z out p v a e g =
    send_message-IsGood socket attempts z out p a e g
run_op-IsGood stops z out p v a e g = kept_sockets (stop z) out p e g

-- A call of someone else that leaves the pointers' sockets alone.
pub run_op-IsValid :
    (op : Op) (y : IpcHandler) (z : ZmqHandler)
    → IsValid y
    → ((r : Role) → Avoids op (y.pointers r))
    → run_op op y.zmq ≡ some z
    → IsValid (record y { zmq = z })
run_op-IsValid op y z v a e = record {
  registry = run_op-IsRegistry op y.zmq z v.registry e;
  good = λ r. run_op-IsGood op y.zmq z (y.pointers r) v.registry (a r) e (v.good r);
  apart = v.apart;
}
