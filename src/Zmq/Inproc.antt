-- ===== src/Zmq/Inproc.antt =====
-- The in-process addresses of the event builders, and the wait of `ConnectInproc` for an address that is
-- bound (socket/ZMQHandler.cpp).
use na62_farm_lib_networking.Base.{
  ℕ, ◌≡◌, ◌≢◌, ◌∙◌, ◌↔◌, refl, sym, ap, List, [], ◌∷◌, ◌++◌, Option, none, some, Bool, true, false,
  ◌==◌, ◌&&◌, ◌||◌, if◌then◌else◌, drop, codes, arith, ℤ, int_text, read_int, read_int-int_text,
  Bool-cases, inl, inr,
}
use na62_farm_lib_networking.Zmq.{ZmqHandler, bind_inproc}

unfoldable pub get_ebl0_address : ℤ → List ℕ
get_ebl0_address thread_num = codes "inproc://EB/" ++ (int_text thread_num ++ codes "/L0")

pub get_eblkr_address : ℤ → List ℕ
get_eblkr_address thread_num = codes "inproc://EB/" ++ (int_text thread_num ++ codes "/LKr")

-- The number that an address names.
thread_of : List ℕ → ℤ
thread_of address = read_int (drop 12 address)

last : ℕ → List ℕ → ℕ
last c [] = c
last c (d ∷ s) = last d s

last-append : (c d : ℕ) (s t : List ℕ) → last c (s ++ d ∷ t) ≡ last d t
unfolding last
last-append c d [] t = refl
last-append c d (e ∷ s) t = last-append e d s t

-- Two event builder threads have different addresses, and those for L0 differ from those for LKr.
pub addresses-differ :
    (i j : ℤ)
    → i ≢ j
    → (get_ebl0_address i ≢ get_ebl0_address j)
      × (get_eblkr_address i ≢ get_eblkr_address j)
      × (get_ebl0_address i ≢ get_eblkr_address j)
unfolding get_ebl0_address get_eblkr_address thread_of last
addresses-differ i j ne = (
  λ e. ne (
      sym (read_int-int_text i b'/' (codes "L0") (omega arith))
      ∙ (ap thread_of e ∙ read_int-int_text j b'/' (codes "L0") (omega arith))),
  λ e. ne (
      sym (read_int-int_text i b'/' (codes "LKr") (omega arith))
      ∙ (ap thread_of e ∙ read_int-int_text j b'/' (codes "LKr") (omega arith))),
  λ e.
      let l0 : last 0 (get_ebl0_address i) ≡ 48 =
        last-append 0 b'/' (codes "inproc://EB/" ++ int_text i) (codes "L0") in
      let lkr : last 0 (get_eblkr_address j) ≡ 114 =
        last-append 0 b'/' (codes "inproc://EB/" ++ int_text j) (codes "LKr") in
      absurd (omega (arith, ap (last 0) e)),
)

same_text : List ℕ → List ℕ → Bool
same_text [] [] = true
same_text [] (d ∷ t) = false
same_text (c ∷ s) [] = false
same_text (c ∷ s) (d ∷ t) = (c == d) && same_text s t

-- `boundAddresses_.find(address) != boundAddresses_.end()`
pub is_bound : List ℕ → List (List ℕ) → Bool
unfolding same_text
is_bound address [] = false
is_bound address (a ∷ bound) = same_text address a || is_bound address bound

-- The addresses that other threads bind while this one sleeps with the mutex unlocked.
pub bind_all : List (List ℕ) → ZmqHandler → ZmqHandler
bind_all [] z = z
bind_all (a ∷ addresses) z = bind_all addresses (bind_inproc true a z)

-- What others bind in each sleep is given; `none` is a wait that has not ended after these sleeps. The
-- result is the state in which `connect` is called.
unfoldable pub connect_inproc : List ℕ → List (List (List ℕ)) → ZmqHandler → Option ZmqHandler
unfolding is_bound bind_all
connect_inproc address [] z = if is_bound address z.bound_addresses then some z else none
connect_inproc address (addresses ∷ sleeps) z =
    let rest = connect_inproc address sleeps (bind_all addresses z) in
    if is_bound address z.bound_addresses then some z else rest

-- Everything that is bound in some sleeps.
abbrev pub all_bound : List (List (List ℕ)) → ZmqHandler → ZmqHandler
all_bound [] z = z
all_bound (addresses ∷ sleeps) z = all_bound sleeps (bind_all addresses z)

bound_stays :
    (address : List ℕ) (addresses : List (List ℕ)) (z : ZmqHandler)
    → is_bound address z.bound_addresses ≡ true
    → is_bound address (bind_all addresses z).bound_addresses ≡ true
unfolding bind_all is_bound bind_inproc
bound_stays address [] z e = e
bound_stays address (a ∷ addresses) z e =
    bound_stays address addresses (bind_inproc true a z) (ground arith)

bound_stays_all :
    (address : List ℕ) (sleeps : List (List (List ℕ))) (z : ZmqHandler)
    → is_bound address z.bound_addresses ≡ true
    → is_bound address (all_bound sleeps z).bound_addresses ≡ true
bound_stays_all address [] z e = e
bound_stays_all address (addresses ∷ sleeps) z e =
    bound_stays_all address sleeps (bind_all addresses z) (bound_stays address addresses z e)

-- The wait ends within some sleeps if and only if the address is bound when it starts or in one of
-- them, and `connect` is called only when it is bound.
pub connect_inproc-ends :
    (address : List ℕ) (sleeps : List (List (List ℕ))) (z : ZmqHandler)
    → ((out : ZmqHandler) × (connect_inproc address sleeps z ≡ some out)
        × (is_bound address out.bound_addresses ≡ true))
      ↔ (is_bound address (all_bound sleeps z).bound_addresses ≡ true)
unfolding connect_inproc
connect_inproc-ends address [] z = elim (Bool-cases (is_bound address z.bound_addresses)) [
  | inl bound ↦ (λ _. bound, λ _. (z, rw bound refl, bound))
  | inr free ↦ (
    λ (out, e, b). absurd (
        let none_found : connect_inproc address [] z ≡ none = rw free refl in
        let gone : none ≡ some out = sym none_found ∙ e in ground arith),
    λ b. absurd (ground arith),
  )
]
connect_inproc-ends address (addresses ∷ sleeps) z =
    elim (Bool-cases (is_bound address z.bound_addresses)) [
      | inl bound ↦ (
        λ _.
            bound_stays_all address sleeps (bind_all addresses z)
              (bound_stays address addresses z bound),
        λ _. (z, rw bound refl, bound),
      )
      | inr free ↦ rw free (connect_inproc-ends address sleeps (bind_all addresses z))
    ]
