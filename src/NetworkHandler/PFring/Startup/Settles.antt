-- ===== src/NetworkHandler/PFring/Startup/Settles.antt =====
-- How the loop over the queues ends (socket/PFringHandler.cpp).
use mathlib.Core.Path.{subst}
use mathlib.Core.List.{append-nil, append_assoc}
use na62_farm_lib_networking.Base.{
  ℕ, suc, ◌+◌, ◌≤◌, ◌<◌, ◌≡◌, ◌∙◌, ◌⊎◌, inl, inr, refl, sym, ap, List, [], ◌∷◌, ◌++◌, Option, some,
  Bool, true, false, Bool-cases, if◌then◌else◌, length, take, drop, u8, length-append, length-take,
  take-append-drop, arith,
}
use na62_farm_lib_networking.NetworkHandler.PFring.{Rc}
use na62_farm_lib_networking.NetworkHandler.PFring.Class.{Request, enable_ring}
use na62_farm_lib_networking.NetworkHandler.PFring.Startup.{
  Queue, Opening, ready, exits, get_elem?, is_ok, queue, open_queues,
}

module _ (library : ℕ → Request → Rc) (device_name : List ℕ) where
  abbrev pub works : ℕ → Option ℕ → Bool
  works i ring = is_ok (enable_ring library (queue library device_name i ring).pf_ring)

  -- Queue numbers go up from `i`, one for each ring.
  abbrev pub queues : ℕ → List (Option ℕ) → List Queue
  queues i [] = []
  queues i (r ∷ rings) = queue library device_name i r ∷ queues (i + 1) rings

  abbrev pub AllWork : ℕ → List (Option ℕ) → Type 0
  AllWork i [] = Unit {0}
  AllWork i (r ∷ rings) = (works i r ≡ true) × AllWork (i + 1) rings

  -- The first ring that cannot be enabled, behind those that can.
  pub record Stops (i : ℕ) (rings : List (Option ℕ)) (set_up : List Queue) : Type 0 where
    pub before : List (Option ℕ)
    pub refused : Option ℕ
    pub behind : List (Option ℕ)
    pub at : rings ≡ before ++ refused ∷ behind
    pub before_work : AllWork i before
    pub refuses : works (i + length before) refused ≡ false
    pub those_before : set_up ≡ queues i before

  get_elem?-append :
      (before : List (Option ℕ)) (r : Option ℕ) (s : List (Option ℕ))
      → get_elem? (before ++ r ∷ s) (length before) ≡ some r
  unfolding get_elem?
  get_elem?-append [] r s = refl
  get_elem?-append (b ∷ before) r s = get_elem?-append before r s

  Stops-cons :
      (i : ℕ) (r : Option ℕ) (rings : List (Option ℕ)) (set_up : List Queue)
      → works i r ≡ true
      → Stops (i + 1) rings set_up
      → Stops i (r ∷ rings) (queue library device_name i r ∷ set_up)
  Stops-cons i r rings set_up w s = record {
    before = r ∷ s.before;
    refused = s.refused;
    behind = s.behind;
    at = ap (◌∷◌ r) s.at;
    before_work = (w, s.before_work);
    refuses = ap (λ k. works k s.refused) (omega arith) ∙ s.refuses;
    those_before = ap (◌∷◌ (queue library device_name i r)) s.those_before;
  }

  -- How the loop ends from queue `i` on, with `rings` to come.
  abbrev Settles : ℕ → List (Option ℕ) → List Queue → Option Opening → Type 0
  Settles i rings opened r =
      (AllWork i rings × (r ≡ some (ready (opened ++ queues i rings))))
      ⊎ ((set_up : List Queue) × (r ≡ some (exits (opened ++ set_up))) × Stops i rings set_up)

  Settles-cons :
      (i : ℕ) (r : Option ℕ) (rings : List (Option ℕ)) (opened : List Queue) (a : Option Opening)
      → works i r ≡ true
      → Settles (i + 1) rings (opened ++ queue library device_name i r ∷ []) a
      → Settles i (r ∷ rings) opened a
  Settles-cons i r rings opened a w (inl (all, e)) = inl (
    (w, all),
    e
        ∙ ap (λ l. some (ready l))
            (append_assoc opened (queue library device_name i r ∷ []) (queues (i + 1) rings)),
  )
  Settles-cons i r rings opened a w (inr (set_up, e, s)) = inr (
    queue library device_name i r ∷ set_up,
    e ∙ ap (λ l. some (exits l)) (append_assoc opened (queue library device_name i r ∷ []) set_up),
    Stops-cons i r rings set_up w s,
  )

  round_lem :
      (rounds number i : ℕ) (rings : List (Option ℕ)) (opened : List Queue) (r : Option ℕ)
      → i < number
      → get_elem? rings i ≡ some r
      → open_queues library device_name (suc rounds) rings number i opened ≡ (
          if works i r
          then open_queues library device_name rounds rings number
              (u8 (i + 1))
              (opened ++ queue library device_name i r ∷ [])
          else some (exits opened))
  unfolding open_queues
  round_lem rounds number i rings opened r h e = rw (e, open_queues) (ground arith)

  end_lem :
      (rounds number i : ℕ) (rings : List (Option ℕ)) (opened : List Queue)
      → number ≤ i
      → open_queues library device_name (suc rounds) rings number i opened ≡ some (ready opened)
  unfolding open_queues
  end_lem rounds number i rings opened h = ground arith

  open_queues_lem :
      (before rings behind : List (Option ℕ)) (number i : ℕ) (opened : List Queue)
      → i ≡ length before
      → i + length rings ≡ number
      → number ≤ 255
      → Settles i rings opened (
          open_queues library device_name
            (suc (length rings))
            (before ++ (rings ++ behind))
            number
            i
            opened)
  unfolding open_queues
  open_queues_lem before [] behind number i opened at n small = inl (
    tt,
    end_lem 0 number i (before ++ behind) opened (omega arith)
        ∙ ap (λ l. some (ready l)) (sym (append-nil opened)),
  )
  open_queues_lem before (r ∷ rings) behind number i opened at n small =
      let all = before ++ (r ∷ (rings ++ behind)) in
      let now =
        round_lem (suc (length rings)) number i all opened r (omega arith)
          (rw at (get_elem?-append before r (rings ++ behind))) in
      elim (Bool-cases (works i r)) [
        | inl w ↦
            let step : open_queues library device_name (suc (suc (length rings))) all number i
                  opened
                ≡ open_queues library device_name (suc (length rings))
                    ((before ++ r ∷ []) ++ (rings ++ behind)) number (i + 1)
                    (opened ++ queue library device_name i r ∷ []) =
              now
              ∙ (ap
                    (λ b.
                      if b
                      then open_queues library device_name (suc (length rings)) all number
                          (u8 (i + 1)) (opened ++ queue library device_name i r ∷ [])
                      else some (exits opened))
                    w
                  ∙ (ap
                        (λ k.
                          open_queues library device_name (suc (length rings)) all number k
                            (opened ++ queue library device_name i r ∷ []))
                        (omega arith)
                      ∙ ap
                          (λ l.
                            open_queues library device_name (suc (length rings)) l number (i + 1)
                              (opened ++ queue library device_name i r ∷ []))
                          (sym (append_assoc before (r ∷ []) (rings ++ behind))))) in
            subst (Settles i (r ∷ rings) opened) (sym step) (
              Settles-cons i r rings opened _ w (
                open_queues_lem (before ++ r ∷ []) rings behind number (i + 1)
                  (opened ++ queue library device_name i r ∷ [])
                  (omega (arith, length-append before (r ∷ []))) (omega arith) small))
        | inr w ↦ inr (
          [],
          now
              ∙ (ap
                    (λ b.
                      if b
                      then open_queues library device_name (suc (length rings)) all number
                          (u8 (i + 1)) (opened ++ queue library device_name i r ∷ [])
                      else some (exits opened))
                    w
                  ∙ ap (λ l. some (exits l)) (sym (append-nil opened))),
          record {
            before = [];
            refused = r;
            behind = rings;
            at = refl;
            before_work = tt;
            refuses = ap (λ k. works k r) (omega arith) ∙ w;
            those_before = refl;
          },
        )
      ]

  -- With at most 255 queues the loop ends, although its counter is a byte: either every ring can be
  -- enabled, and each queue has its own ring, in order, under the device's name with its number,
  -- or the program exits at the first ring that cannot be.
  pub open_queues-Settles :
      (rings : List (Option ℕ)) (number : ℕ)
      → number ≤ length rings
      → number ≤ 255
      → let used = take number rings in
        (AllWork 0 used
          × (open_queues library device_name (suc number) rings number 0 []
              ≡ some (ready (queues 0 used))))
        ⊎ ((set_up : List Queue) × (open_queues library device_name (suc number) rings number 0 []
              ≡ some (exits set_up))
            × Stops 0 used set_up)
  open_queues-Settles rings number fits small =
      let size : length (take number rings) ≡ number = omega (arith, length-take number rings) in
      let whole = take-append-drop number rings in
      let r =
        open_queues_lem [] (take number rings) (drop number rings) number 0 [] refl (omega arith)
          small in
      subst
        (λ k.
          Settles 0 (take number rings) []
            (open_queues library device_name (suc k) rings number 0 []))
        size
        (subst
          (λ l.
            Settles 0 (take number rings) []
              (open_queues library device_name (suc (length (take number rings))) l number 0 []))
          whole r)
