-- ===== src/Controller/Modes.antt =====
-- The names of the robot's modes: `normalized_mode` and the table `kModes` of `request_mode`.
use mathlib.Core.Path.{◌≡⟨◌⟩◌, ◌∎}
use hypertron_sw01_ros2_brid.Prelude.{
  ℕ, ◌≡◌, refl, sym, ap, Bool, true, false, List, [], ◌∷◌, map, Option, none, some, if◌then◌else◌,
  arith, Bool-cases, inl, inr, All, ◌++◌, ◌∙◌,
}
use hypertron_sw01_ros2_brid.Prelude.Text.{Bytes, codes, bytes_eq, is_space, to_lower}

-- The first loop: it passes over the blanks in front.
trim_front : Bytes → Bytes
trim_front [] = []
trim_front (c ∷ s) = if is_space c then trim_front s else c ∷ s

abbrev cons_kept : ℕ → Bytes → Bytes
cons_kept c [] = if is_space c then [] else c ∷ []
cons_kept c (d ∷ s) = c ∷ d ∷ s

-- The second loop: it gives up the blanks at the end.
trim_back : Bytes → Bytes
trim_back [] = []
trim_back (c ∷ s) = cons_kept c (trim_back s)

unfoldable pub normalized_mode : Bytes → Bytes
unfolding trim_front trim_back
normalized_mode input = map to_lower (trim_back (trim_front input))

abbrev pub mode_damping : ℕ
mode_damping = 0xA101

abbrev pub mode_move : ℕ
mode_move = 0xA104

abbrev pub modes : List (Bytes × ℕ)
modes =
    (codes "damping", 0xA101)
    ∷ (codes "stand", 0xA102)
    ∷ (codes "down", 0xA103)
    ∷ (codes "move", 0xA104)
    ∷ (codes "auto_charge", 0xA105)
    ∷ (codes "exit_charge", 0xA106)
    ∷ (codes "recover", 0xA1FF)
    ∷ (codes "recovery", 0xA1FF)
    ∷ []

unfoldable pub find_in : List (Bytes × ℕ) → Bytes → Option ℕ
find_in [] name = none
find_in ((key, mode) ∷ rest) name = if bytes_eq key name then some mode else find_in rest name

unfoldable pub find_mode : Bytes → Option ℕ
unfolding find_in
find_mode name = find_in modes name

to_lower_idem : (c : ℕ) → to_lower (to_lower c) ≡ to_lower c
to_lower_idem c = ground arith

is_space-to_lower : (c : ℕ) → is_space (to_lower c) ≡ is_space c
is_space-to_lower c = ground arith

map-to_lower_idem : (s : Bytes) → map to_lower (map to_lower s) ≡ map to_lower s
map-to_lower_idem [] = refl
map-to_lower_idem (c ∷ s) = cc (to_lower_idem c, map-to_lower_idem s)

map-trim_front : (s : Bytes) → map to_lower (trim_front s) ≡ trim_front (map to_lower s)
unfolding trim_front
map-trim_front [] = refl
map-trim_front (c ∷ s) = elim (Bool-cases (is_space c)) [
  | inl blank ↦ rw (is_space-to_lower c, blank) (map-trim_front s)
  | inr other ↦ rw (is_space-to_lower c, other) refl
]

map-cons_kept :
    (c : ℕ) (s : Bytes) → map to_lower (cons_kept c s) ≡ cons_kept (to_lower c) (map to_lower s)
map-cons_kept c [] = rw (is_space-to_lower c) (map-lone c (is_space c))
  where
    map-lone :
        (c : ℕ) (b : Bool)
        → map to_lower (if b then [] else c ∷ []) ≡ (if b then [] else to_lower c ∷ [])
    map-lone c true = refl
    map-lone c false = refl
map-cons_kept c (d ∷ s) = refl

map-trim_back : (s : Bytes) → map to_lower (trim_back s) ≡ trim_back (map to_lower s)
unfolding trim_back
map-trim_back [] = refl
map-trim_back (c ∷ s) = rw (← map-trim_back s) (map-cons_kept c (trim_back s))

-- Trimming what is trimmed changes nothing.
abbrev pub HeadSolid : Bytes → Type 0
HeadSolid [] = Unit {0}
HeadSolid (c ∷ s) = is_space c ≡ false

trim_front-HeadSolid : (s : Bytes) → HeadSolid (trim_front s)
unfolding trim_front
trim_front-HeadSolid [] = tt
trim_front-HeadSolid (c ∷ s) = elim (Bool-cases (is_space c)) [
  | inl blank ↦ rw blank (trim_front-HeadSolid s)
  | inr other ↦ rw other other
]

trim_front-solid : (s : Bytes) → HeadSolid s → trim_front s ≡ s
unfolding trim_front
trim_front-solid [] h = refl
trim_front-solid (c ∷ s) h = rw h refl

cons_kept-HeadSolid : (c : ℕ) (s : Bytes) → is_space c ≡ false → HeadSolid (cons_kept c s)
cons_kept-HeadSolid c [] h = rw h h
cons_kept-HeadSolid c (d ∷ s) h = h

trim_back-cons_kept :
    (c : ℕ) (s : Bytes) → trim_back s ≡ s → trim_back (cons_kept c s) ≡ cons_kept c s
unfolding trim_back
trim_back-cons_kept c [] h = elim (Bool-cases (is_space c)) [
  | inl blank ↦ rw blank refl
  | inr other ↦ rw other (rw other refl)
]
trim_back-cons_kept c (d ∷ s) h = ap (cons_kept c) h

trim_back-HeadSolid : (s : Bytes) → HeadSolid s → HeadSolid (trim_back s)
unfolding trim_back
trim_back-HeadSolid [] h = tt
trim_back-HeadSolid (c ∷ s) h = cons_kept-HeadSolid c (trim_back s) h

trim_back-trim_back : (s : Bytes) → trim_back (trim_back s) ≡ trim_back s
unfolding trim_back
trim_back-trim_back [] = refl
trim_back-trim_back (c ∷ s) = trim_back-cons_kept c (trim_back s) (trim_back-trim_back s)

-- Normalizing is idempotent.
pub normalized_mode_idem : (s : Bytes) → normalized_mode (normalized_mode s) ≡ normalized_mode s
unfolding normalized_mode
normalized_mode_idem s =
    let t : Bytes = trim_back (trim_front s) in
    let solid : HeadSolid t = trim_back-HeadSolid (trim_front s) (trim_front-HeadSolid s) in
    map to_lower (trim_back (trim_front (map to_lower t)))
    ≡⟨ ap (λ u. map to_lower (trim_back u)) (sym (map-trim_front t)) ⟩
      map to_lower (trim_back (map to_lower (trim_front t)))
    ≡⟨ ap (λ u. map to_lower (trim_back (map to_lower u))) (trim_front-solid t solid) ⟩
      map to_lower (trim_back (map to_lower t))
    ≡⟨ ap (map to_lower) (sym (map-trim_back t)) ⟩ map to_lower (map to_lower (trim_back t))
    ≡⟨ map-to_lower_idem (trim_back t) ⟩ map to_lower (trim_back t)
    ≡⟨ ap (map to_lower) (trim_back-trim_back (trim_front s)) ⟩ map to_lower t ∎

abbrev pub LastSolid : Bytes → Type 0
LastSolid [] = Unit {0}
LastSolid (c ∷ []) = is_space c ≡ false
LastSolid (c ∷ d ∷ s) = LastSolid (d ∷ s)

abbrev pub IsBlank : ℕ → Type 0
IsBlank c = is_space c ≡ true

trim_front-blanks : (f s : Bytes) → All IsBlank f → trim_front (f ++ s) ≡ trim_front s
unfolding trim_front
trim_front-blanks [] s h = refl
trim_front-blanks (c ∷ f) s (b, h) = rw b (trim_front-blanks f s h)

trim_back-blanks : (b : Bytes) → All IsBlank b → trim_back b ≡ []
unfolding trim_back
trim_back-blanks [] h = refl
trim_back-blanks (c ∷ b) (e, h) = rw (trim_back-blanks b h) (rw e refl)

trim_back-padded : (s b : Bytes) → All IsBlank b → LastSolid s → trim_back (s ++ b) ≡ s
unfolding trim_back
trim_back-padded [] b h l = trim_back-blanks b h
trim_back-padded (c ∷ []) b h l = rw (trim_back-blanks b h) (rw l refl)
trim_back-padded (c ∷ d ∷ s) b h l = ap (cons_kept c) (trim_back-padded (d ∷ s) b h l)

trim-padded :
    (s b : Bytes) → All IsBlank b → HeadSolid s → LastSolid s → trim_back (trim_front (s ++ b)) ≡ s
unfolding trim_front trim_back
trim-padded [] b f h l = blank_trimmed b f
  where
    blank_trimmed : (b : Bytes) → All IsBlank b → trim_back (trim_front b) ≡ []
    blank_trimmed [] f = refl
    blank_trimmed (c ∷ b) (e, f) = rw e (blank_trimmed b f)
trim-padded (c ∷ s) b f h l = rw h (trim_back-padded (c ∷ s) b f l)

-- What is left of a text between blanks.
pub normalized_mode-padded :
    (front s back : Bytes)
    → All IsBlank front
    → All IsBlank back
    → HeadSolid s
    → LastSolid s
    → normalized_mode (front ++ (s ++ back)) ≡ map to_lower s
unfolding normalized_mode
normalized_mode-padded front s back f b h l =
    ap (λ x. map to_lower (trim_back x)) (trim_front-blanks front (s ++ back) f)
    ∙ ap (map to_lower) (trim-padded s back b h l)
