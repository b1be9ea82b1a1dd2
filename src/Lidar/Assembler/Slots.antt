-- ===== src/Lidar/Assembler/Slots.antt =====
-- The slots of the assembler as a list: searching and writing one.
use hypertron_sw01_ros2_brid.Prelude.{
  ℕ, zero, suc, ◌+◌, ◌<◌, ◌≡◌, ◌≢◌, refl, ap, ◌∙◌, subst, true, false, ◌&&◌, List, [], ◌∷◌, Option,
  none, some, length, arith, ◌⊎◌, inl, inr, Bool-cases, Option-cases, ◌==◌, All, get_elem?, set,
  replicate,
}
use hypertron_sw01_ros2_brid.Lidar.Slot.{FrameSlot, empty_slot}
use hypertron_sw01_ros2_brid.Lidar.Assembler.{
  Choice, free, oldest, nothing, choose, find_slot, is_earlier,
}

module _ {ℓ} {A : Type ℓ} where
  pub get_elem?-set_self :
      (xs : List A) (i : ℕ) (v : A) → i < length xs → get_elem? (set xs i v) i ≡ some v
  get_elem?-set_self [] i v h = elim h [ ]
  get_elem?-set_self (x ∷ xs) zero v h = refl
  get_elem?-set_self (x ∷ xs) (suc i) v h = get_elem?-set_self xs i v (omega arith)

  pub get_elem?-lt : (xs : List A) (i : ℕ) {x : A} → get_elem? xs i ≡ some x → i < length xs
  get_elem?-lt [] i e = cc
  get_elem?-lt (y ∷ ys) zero e = omega arith
  get_elem?-lt (y ∷ ys) (suc i) e = omega (arith, get_elem?-lt ys i e)

  pub set-set : (xs : List A) (i : ℕ) (v w : A) → set (set xs i v) i w ≡ set xs i w
  set-set [] i v w = refl
  set-set (x ∷ xs) zero v w = refl
  set-set (x ∷ xs) (suc i) v w = ap (◌∷◌ x) (set-set xs i v w)

module _ {ℓ κ} {A : Type ℓ} where
  pub All-set : (Q : A → Type κ) (xs : List A) (i : ℕ) (v : A) → All Q xs → Q v → All Q (set xs i v)
  All-set Q [] i v a q = tt
  All-set Q (x ∷ xs) zero v a q = (q, a.1)
  All-set Q (x ∷ xs) (suc i) v a q = (a.0, All-set Q xs i v a.1 q)

  pub All-get :
      (Q : A → Type κ) (xs : List A) (i : ℕ) {x : A} → All Q xs → get_elem? xs i ≡ some x → Q x
  All-get Q [] i a e = cc
  All-get Q (y ∷ ys) zero {x} a e = subst Q (some-eq y x e) a.0
    where
      some-eq : (y x : A) → some y ≡ some x → y ≡ x
      some-eq y x e = cc
  All-get Q (y ∷ ys) (suc i) a e = All-get Q ys i a.1 e

  pub All-replicate : (Q : A → Type κ) (n : ℕ) (x : A) → Q x → All Q (replicate n x)
  All-replicate Q zero x q = tt
  All-replicate Q (suc n) x q = (q, All-replicate Q n x q)

-- The place that the search gives lies within the slots, and with at least one slot it gives one.
abbrev pub Chosen : ℕ → Choice → Type 0
Chosen n (free j) = j < n
Chosen n (oldest j) = j < n
Chosen n nothing = ⊥

abbrev pub Earlier : ℕ → Option (ℕ × ℕ) → Type 0
Earlier i none = Unit {0}
Earlier i (some (j, t)) = j < i

module _ {P : Type 0} where
  -- No two active slots have one timestamp.
  abbrev pub Distinct : List (FrameSlot P) → Type 0
  Distinct [] = Unit {0}
  Distinct (s ∷ ss) = (s.active ≡ true → find_slot s.timestamp_ns ss ≡ none) × Distinct ss

  -- The slot that `find_slot` finds is active and has the timestamp.
  pub find_slot-found :
      (t i : ℕ) (ss : List (FrameSlot P))
      → find_slot t ss ≡ some i
      → (s : FrameSlot P) × (get_elem? ss i ≡ some s) × (s.active ≡ true) × (s.timestamp_ns ≡ t)
  unfolding find_slot
  find_slot-found t i [] e = cc
  find_slot-found t i (s ∷ ss) e = elim (Bool-cases (s.active && s.timestamp_ns == t)) [
    | inl hit ↦ let first : i ≡ 0 = ground arith in (s, rw first refl, ground arith, ground arith)
    | inr miss ↦ elim (Option-cases (find_slot t ss)) [
      | inl nothing' ↦ absurd (ground arith)
      | inr (j, later) ↦
          let next : i ≡ suc j = ground arith in
          let (s', at, active, stamp) = find_slot-found t j ss later in
          (s', rw next at, active, stamp)
    ]
  ]

  -- Writing a slot that is free, or keeps its timestamp out of the way, finds nothing new.
  pub find_slot-set-none :
      (t i : ℕ) (v : FrameSlot P) (ss : List (FrameSlot P))
      → find_slot t ss ≡ none
      → (v.active ≡ true → v.timestamp_ns ≢ t)
      → find_slot t (set ss i v) ≡ none
  unfolding find_slot
  find_slot-set-none t i v [] e h = refl
  find_slot-set-none t zero v (s ∷ ss) e h = ground arith
  find_slot-set-none t (suc i) v (s ∷ ss) e h = ground (arith, find_slot-set-none t i v ss)

  -- Writing a slot with the same timestamp and activity changes no search.
  pub find_slot-set_same :
      (t i : ℕ) (s v : FrameSlot P) (ss : List (FrameSlot P))
      → get_elem? ss i ≡ some s
      → v.active ≡ s.active
      → v.timestamp_ns ≡ s.timestamp_ns
      → find_slot t (set ss i v) ≡ find_slot t ss
  unfolding find_slot
  find_slot-set_same t i s v [] g a e = refl
  find_slot-set_same t zero s v (s' ∷ ss) g a e = ground arith
  find_slot-set_same t (suc i) s v (s' ∷ ss) g a e =
      ground (arith, find_slot-set_same t i s v ss g a e)

  -- The slot just opened is the one that is found.
  pub find_slot-set_new :
      (t i : ℕ) (v : FrameSlot P) (ss : List (FrameSlot P))
      → find_slot t ss ≡ none
      → i < length ss
      → v.active ≡ true
      → v.timestamp_ns ≡ t
      → find_slot t (set ss i v) ≡ some i
  unfolding find_slot
  find_slot-set_new t i v [] f h a e = elim h [ ]
  find_slot-set_new t zero v (s ∷ ss) f h a e = ground arith
  find_slot-set_new t (suc i) v (s ∷ ss) f h a e = ground (arith, find_slot-set_new t i v ss)

  pub Distinct-set_same :
      (i : ℕ) (s v : FrameSlot P) (ss : List (FrameSlot P))
      → get_elem? ss i ≡ some s
      → v.active ≡ s.active
      → v.timestamp_ns ≡ s.timestamp_ns
      → Distinct ss
      → Distinct (set ss i v)
  Distinct-set_same i s v [] g a e d = tt
  Distinct-set_same zero s v (s' ∷ ss) g a e d = ground arith
  Distinct-set_same (suc i) s v (s' ∷ ss) g a e d = (
    (λ h. find_slot-set_same s'.timestamp_ns i s v ss g a e ∙ d.0 h),
    Distinct-set_same i s v ss g a e d.1,
  )

  -- Freeing a slot.
  pub Distinct-set_free :
      (i : ℕ) (v : FrameSlot P) (ss : List (FrameSlot P))
      → v.active ≡ false
      → Distinct ss
      → Distinct (set ss i v)
  Distinct-set_free i v [] f d = tt
  Distinct-set_free zero v (s ∷ ss) f d = (λ h. cc, d.1)
  Distinct-set_free (suc i) v (s ∷ ss) f d = (
    (λ h. find_slot-set-none s.timestamp_ns i v ss (d.0 h) (λ h'. cc)),
    Distinct-set_free i v ss f d.1,
  )

  -- Opening a slot for a timestamp that no active slot has.
  pub Distinct-set_new :
      (i : ℕ) (v : FrameSlot P) (ss : List (FrameSlot P))
      → find_slot v.timestamp_ns ss ≡ none
      → Distinct ss
      → Distinct (set ss i v)
  unfolding find_slot
  Distinct-set_new i v [] f d = tt
  Distinct-set_new zero v (s ∷ ss) f d = (λ h. ground arith, d.1)
  Distinct-set_new (suc i) v (s ∷ ss) f d = (
    (λ h. find_slot-set-none s.timestamp_ns i v ss (d.0 h) (λ h'. ground arith)),
    Distinct-set_new i v ss (ground arith) d.1,
  )

  choose-Chosen :
      (i n : ℕ) (best : Option (ℕ × ℕ)) (ss : List (FrameSlot P))
      → Earlier i best
      → n ≡ i + length ss
      → (0 < length ss) ⊎ (best ≢ none)
      → Chosen n (choose i best ss)
  unfolding choose
  choose-Chosen i n none [] b e (inl h) = absurd (omega arith)
  choose-Chosen i n none [] b e (inr h) = absurd (h refl)
  choose-Chosen i n (some (j, t)) [] b e h = omega arith
  choose-Chosen i n best (s ∷ ss) b e h = elim (Bool-cases s.active) [
    | inr idle ↦ rw (idle, choose) (ground arith)
    | inl busy ↦ elim (Bool-cases (is_earlier s.activated_at best)) [
      | inl sooner ↦
          rw (busy, sooner)
            (choose-Chosen (suc i) n (some (i, s.activated_at)) ss (omega arith) (omega arith)
              (inr (λ p. cc)))
      | inr later ↦
          rw (busy, later)
            (choose-Chosen (suc i) n best ss (ground arith) (omega arith) (inr (λ p. ground arith)))
    ]
  ]

  pub choose-in_range :
      (ss : List (FrameSlot P)) → 0 < length ss → Chosen (length ss) (choose 0 none ss)
  choose-in_range ss h = choose-Chosen 0 (length ss) none ss tt (omega arith) (inl h)

pub Distinct-empty : (P : Type 0) (n : ℕ) → Distinct {P = P} (replicate n empty_slot)
Distinct-empty P zero = tt
Distinct-empty P (suc n) = (λ h. cc, Distinct-empty P n)
