-- ===== src/NetworkHandler/PFring/Drops.antt =====
-- `GetFramesDropped` (socket/PFringHandler.cpp).
use na62_farm_lib_networking.Base.{ℕ, ◌+◌, ◌≡◌, ◌∙◌, ap, List, [], ◌∷◌, map, some, arith, u64}
use na62_farm_lib_networking.NetworkHandler.PFring.{dropped_from, get_frames_dropped}

abbrev pub sum : List ℕ → ℕ
sum [] = 0
sum (n ∷ ns) = n + sum ns

dropped_from-map :
    (ns : List ℕ) (drop dropped : ℕ)
    → u64 (dropped_from drop (map some ns) dropped) ≡ u64 (dropped + sum ns)
unfolding dropped_from
dropped_from-map [] drop dropped = ap u64 (omega arith)
dropped_from-map (n ∷ ns) drop dropped = dropped_from-map ns n (u64 (dropped + n)) ∙ omega arith

dropped_from-u64 :
    (ns : List ℕ) (drop dropped : ℕ)
    → dropped ≡ u64 dropped
    → dropped_from drop (map some ns) dropped ≡ u64 (dropped_from drop (map some ns) dropped)
unfolding dropped_from
dropped_from-u64 [] drop dropped e = e
dropped_from-u64 (n ∷ ns) drop dropped e = dropped_from-u64 ns n (u64 (dropped + n)) (omega arith)

-- If every ring reports its drops, the answer is their sum, modulo 2^64.
pub get_frames_dropped-sum : (ns : List ℕ) → get_frames_dropped (map some ns) ≡ u64 (sum ns)
unfolding get_frames_dropped
get_frames_dropped-sum ns =
    dropped_from-u64 ns 0 0 (omega arith) ∙ (dropped_from-map ns 0 0 ∙ ap u64 (omega arith))
