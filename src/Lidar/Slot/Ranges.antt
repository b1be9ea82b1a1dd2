-- ===== src/Lidar/Slot/Ranges.antt =====
-- The point ranges of a slot's packets: in order, disjoint and within the frame.
use hypertron_sw01_ros2_brid.Prelude.{
  ℕ, ◌+◌, ◌≤◌, ◌<◌, max, ◌≡◌, refl, false, List, [], ◌∷◌, none, some, length, length-append, ltb,
  arith, inl, inr, Bool-cases,
}
use hypertron_sw01_ros2_brid.Lidar.Slot.{
  find_packet, lower_bound, before_bound, emplace, contiguous_end, all_points, overlaps_next,
  overlaps_prev,
}

module _ {P : Type 0} where
  -- The ranges lie in [lo, hi), in order and disjoint; the keys are strictly increasing.
  abbrev pub Ranges : ℕ → ℕ → List (ℕ × List P) → Type 0
  Ranges lo hi [] = lo ≤ hi
  Ranges lo hi ((k, pts) ∷ rest) = (lo ≤ k) × Ranges (max (k + 1) (k + length pts)) hi rest

  -- The points in all packets.
  abbrev pub sum_sizes : List (ℕ × List P) → ℕ
  sum_sizes [] = 0
  sum_sizes ((k, pts) ∷ rest) = length pts + sum_sizes rest

  pub sum_sizes-le : (lo hi : ℕ) (es : List (ℕ × List P)) → Ranges lo hi es → lo + sum_sizes es ≤ hi
  sum_sizes-le lo hi [] r = omega arith
  sum_sizes-le lo hi ((k, pts) ∷ rest) r =
      omega (arith, sum_sizes-le (max (k + 1) (k + length pts)) hi rest r.1)

  -- Ranges that fill the frame leave no gap.
  pub full-contiguous :
      (lo hi : ℕ) (es : List (ℕ × List P))
      → Ranges lo hi es
      → lo + sum_sizes es ≡ hi
      → contiguous_end lo es ≡ some hi
  unfolding contiguous_end
  full-contiguous lo hi [] r e = ground arith
  full-contiguous lo hi ((k, pts) ∷ rest) r e =
      let bound : max (k + 1) (k + length pts) + sum_sizes rest ≤ hi =
        sum_sizes-le (max (k + 1) (k + length pts)) hi rest r.1 in
      let here : k ≡ lo = omega arith in
      let there : max (k + 1) (k + length pts) ≡ lo + length pts = omega arith in
      ground (arith, full-contiguous (lo + length pts) hi rest (rw there at r.1) (omega arith))

  pub length-all_points : (es : List (ℕ × List P)) → length (all_points es) ≡ sum_sizes es
  unfolding all_points
  length-all_points [] = refl
  length-all_points ((k, pts) ∷ rest) =
      omega (arith, length-append pts (all_points rest), length-all_points rest)

  -- What the checks on the neighbours say of the entry in front.
  front-clear :
      (i k : ℕ) (pts : List P) (hi : ℕ) (rest : List (ℕ × List P))
      → Ranges (max (k + 1) (k + length pts)) hi rest
      → k < i
      → overlaps_prev i (before_bound i (some (k, pts)) rest) ≡ false
      → max (k + 1) (k + length pts) ≤ i
  unfolding before_bound
  front-clear i k pts hi [] r lt o = ground arith
  front-clear i k pts hi ((j, qts) ∷ rest) r lt o = elim (Bool-cases (ltb j i)) [
    | inl below ↦ ground arith
    | inr above ↦ ground arith
  ]

  rest-clear :
      (i : ℕ) (e : ℕ × List P) (rest : List (ℕ × List P))
      → overlaps_prev i (before_bound i (some e) rest) ≡ false
      → overlaps_prev i (before_bound i none rest) ≡ false
  unfolding before_bound
  rest-clear i e [] o = refl
  rest-clear i e ((j, qts) ∷ rest) o = ground arith

  -- A packet that passes the checks keeps the ranges in order.
  pub emplace-Ranges :
      (lo hi i : ℕ) (pts : List P) (es : List (ℕ × List P))
      → Ranges lo hi es
      → lo ≤ i
      → i < hi
      → i + length pts ≤ hi
      → find_packet i es ≡ none
      → overlaps_next i (length pts) (lower_bound i es) ≡ false
      → overlaps_prev i (before_bound i none es) ≡ false
      → Ranges lo hi (emplace i pts es)
  unfolding find_packet lower_bound before_bound emplace
  emplace-Ranges lo hi i pts [] r l h b f n p = omega arith
  emplace-Ranges lo hi i pts ((k, qts) ∷ rest) r l h b f n p = ground (
    arith,
    front-clear i k qts hi rest,
    rest-clear i (k, qts) rest,
    emplace-Ranges (max (k + 1) (k + length qts)) hi i pts rest,
  )

  pub length-emplace :
      (i : ℕ) (pts : List P) (es : List (ℕ × List P))
      → find_packet i es ≡ none
      → length (emplace i pts es) ≡ length es + 1
  unfolding find_packet emplace
  length-emplace i pts [] f = omega arith
  length-emplace i pts ((k, qts) ∷ rest) f = ground (arith, length-emplace i pts rest)

  pub sum_sizes-emplace :
      (i : ℕ) (pts : List P) (es : List (ℕ × List P))
      → find_packet i es ≡ none
      → sum_sizes (emplace i pts es) ≡ sum_sizes es + length pts
  unfolding find_packet emplace
  sum_sizes-emplace i pts [] f = omega arith
  sum_sizes-emplace i pts ((k, qts) ∷ rest) f = ground (arith, sum_sizes-emplace i pts rest)
