-- ===== src/Node/Clock/Near.antt =====
-- How far the mapped times lie from the receive times.
use hypertron_sw01_ros2_brid.Prelude.{
  List, [], ◌∷◌, All, subst, ◌%◌, ℕ, ◌+◌, ◌-◌, ◌/◌, ◌^◌, ◌≤◌, ◌<◌, ◌≡◌, ◌⊎◌, inl, inr, refl, Bool,
  true, false, ◌||◌, not, ltb, arith, if_cases, if_no, sym, ◌∙◌,
}
use hypertron_sw01_ros2_brid.Prelude.Int.{
  ℤ, pos, negsuc, pos_part, neg_part, ltb_ℤ, difference, ◌+ℤ◌, ◌-ℤ◌,
}
use hypertron_sw01_ros2_brid.Node.Clock.{
  Mapper, constructed, wrap, size, by_64, is_discontinuous, next_offset, mapped_time, is_too_large,
  observe_odometry, map_cloud,
}

infix 50 ◌≤ℤ◌
abbrev pub ◌≤ℤ◌ : ℤ → ℤ → Type 0
a ≤ℤ b = pos_part a + neg_part b ≤ pos_part b + neg_part a

parts_difference :
    (a b : ℕ) → (pos_part (difference a b) ≡ a - b) × (neg_part (difference a b) ≡ b - a)
parts_difference a b = ground arith

-- One of the parts is 0.
one_part : (a : ℤ) → (pos_part a ≡ 0) ⊎ (neg_part a ≡ 0)
one_part (pos n) = inr refl
one_part (negsuc n) = inl refl

sum_parts :
    (a b : ℤ)
    → (pos_part (a +ℤ b) ≡ pos_part a + pos_part b - (neg_part a + neg_part b))
      × (neg_part (a +ℤ b) ≡ neg_part a + neg_part b - (pos_part a + pos_part b))
sum_parts a b = parts_difference (pos_part a + pos_part b) (neg_part a + neg_part b)

difference_parts :
    (a b : ℤ)
    → (pos_part (a -ℤ b) ≡ pos_part a + neg_part b - (neg_part a + pos_part b))
      × (neg_part (a -ℤ b) ≡ neg_part a + pos_part b - (pos_part a + neg_part b))
difference_parts a b = parts_difference (pos_part a + neg_part b) (neg_part a + pos_part b)

-- A time or an offset that is half of what 64 bits hold, or less.
abbrev pub IsShort : ℤ → Type 0
IsShort a = size a < 2 ^ 62

fits-wrap : (a : ℤ) → size a < 2 ^ 63 → wrap a ≡ a
unfolding wrap
fits-wrap (pos n) h =
    let word : (n % 0x1_0000_0000_0000_0000 + 0x1_0000_0000_0000_0000) % 0x1_0000_0000_0000_0000
        ≡ n =
      omega arith in
    rw word (ground arith)
fits-wrap (negsuc n) h =
    let word : (0 + (0x1_0000_0000_0000_0000 - (n + 1) % 0x1_0000_0000_0000_0000))
          % 0x1_0000_0000_0000_0000
        ≡ 0x1_0000_0000_0000_0000 - (n + 1) =
      omega arith in
    rw word (ground arith)

-- `near` is at most `at` and at most two seconds below it.
abbrev pub IsNear : ℤ → ℤ → Type 0
IsNear at near = (near ≤ℤ at) × (at ≤ℤ (near +ℤ pos 2_000_000_000))

same-IsNear : (a : ℤ) → IsNear a a
same-IsNear a = omega (arith, sum_parts a (pos 2_000_000_000), one_part a)

slow-IsNear :
    (observed offset : ℤ)
    → size (observed -ℤ offset) ≤ 2_000_000_000
    → offset ≤ℤ observed
    → IsNear observed (offset +ℤ by_64 (observed -ℤ offset))
slow-IsNear observed offset close above =
    let d = observed -ℤ offset in
    omega (
      arith,
      one_part observed,
      one_part offset,
      difference_parts observed offset,
      parts_difference (pos_part d / 64) (neg_part d / 64),
      sum_parts offset (by_64 d),
      sum_parts (offset +ℤ by_64 d) (pos 2_000_000_000),
    )

not_below : (a b : ℤ) → ltb_ℤ a b ≡ false → b ≤ℤ a
not_below a b h = ground arith

second_false : (a b : Bool) → (a || b) ≡ false → b ≡ false
second_false true b h = cc
second_false false b h = h

not_more : (n m : ℕ) → ltb n m ≡ false → m ≤ n
not_more n m h = ground arith

size_difference : (a b : ℤ) → size (a -ℤ b) ≤ size a + size b
size_difference a b = omega (arith, difference_parts a b, one_part a, one_part b)

-- The difference of two short numbers does not wrap.
wrap_difference : (a b : ℤ) → IsShort a → IsShort b → wrap (a -ℤ b) ≡ a -ℤ b
wrap_difference a b h k = fits-wrap (a -ℤ b) (omega (arith, size_difference a b))

is_steady :
    (device observed : ℤ) (m : Mapper)
    → is_discontinuous device observed m ≡ false
    → size (wrap (observed -ℤ m.offset_ns)) ≤ 2_000_000_000
unfolding is_discontinuous
is_steady device observed m h = not_more 2_000_000_000 (size (wrap (observed -ℤ m.offset_ns))) (
    second_false (ltb_ℤ (wrap (device +ℤ pos 1_000_000_000)) m.last_device_ns) _
      (second_false (not m.initialized) _ h))

-- A step of a 64th stays between the two offsets.
step-IsShort :
    (observed offset : ℤ)
    → IsShort observed
    → IsShort offset
    → IsShort (offset +ℤ by_64 (observed -ℤ offset))
step-IsShort observed offset h k =
    let d = observed -ℤ offset in
    omega (
      arith,
      one_part observed,
      one_part offset,
      difference_parts observed offset,
      parts_difference (pos_part d / 64) (neg_part d / 64),
      sum_parts offset (by_64 d),
    )

-- A new offset that is near the observed one and short.
abbrev IsGood : ℤ → ℤ → Type 0
IsGood observed offset = IsNear observed offset × IsShort offset

next_offset-IsGood :
    (device observed : ℤ) (m : Mapper)
    → IsShort observed
    → IsShort m.offset_ns
    → IsGood observed (next_offset device observed m)
unfolding next_offset
next_offset-IsGood device observed m h k =
    let plain : wrap (observed -ℤ m.offset_ns) ≡ observed -ℤ m.offset_ns =
      wrap_difference observed m.offset_ns h k in
    let moved = step-IsShort observed m.offset_ns h k in
    let stays : wrap (m.offset_ns +ℤ by_64 (observed -ℤ m.offset_ns))
        ≡ m.offset_ns +ℤ by_64 (observed -ℤ m.offset_ns) =
      fits-wrap (m.offset_ns +ℤ by_64 (observed -ℤ m.offset_ns)) (omega arith) in
    if_cases (IsGood observed) (is_discontinuous device observed m) _ _
      (λ _. (same-IsNear observed, h))
      (λ steady.
        if_cases (IsGood observed) (ltb_ℤ observed m.offset_ns) _ _ (λ _. (same-IsNear observed, h))
          (λ above.
            rw (plain, stays)
              (
                slow-IsNear observed m.offset_ns
                    (subst (λ d. size d ≤ 2_000_000_000) plain (is_steady device observed m steady))
                    (not_below observed m.offset_ns above),
                moved,
              )))

-- The sum of the device's time and a near offset is near the receive time, and does not wrap.
wrap_sum :
    (device receive : ℕ) (offset : ℤ)
    → device < 2 ^ 62
    → receive < 2 ^ 62
    → IsGood (pos receive -ℤ pos device) offset
    → wrap (pos device +ℤ offset) ≡ pos device +ℤ offset
wrap_sum device receive offset h k (near, short) =
    fits-wrap (pos device +ℤ offset) (omega (arith, sum_parts (pos device) offset))

-- What the offset keeps, the mapped time keeps; the clamp does not bite.
sum-IsNear :
    (device receive offset : ℤ)
    → IsNear (receive -ℤ device) offset
    → IsNear receive (device +ℤ offset)
sum-IsNear device receive offset (below, close) = omega (
  arith,
  below,
  close,
  one_part receive,
  one_part device,
  one_part offset,
  difference_parts receive device,
  sum_parts device offset,
  sum_parts offset (pos 2_000_000_000),
  sum_parts (device +ℤ offset) (pos 2_000_000_000),
)

mapped-not_late : (device offset receive : ℤ) → mapped_time device offset receive ≤ℤ receive
unfolding mapped_time
mapped-not_late device offset receive =
    if_cases (λ t. t ≤ℤ receive) (ltb_ℤ receive (wrap (device +ℤ offset))) _ _ (λ _. omega arith)
      (λ h. not_below receive (wrap (device +ℤ offset)) h)

below-not : (a b : ℤ) → b ≤ℤ a → ltb_ℤ a b ≡ false
below-not a b h = ground arith

-- The mapped time at the receive time or later.
mapped-plain :
    (device receive receive' : ℕ) (offset : ℤ)
    → device < 2 ^ 62
    → receive < 2 ^ 62
    → receive ≤ receive'
    → IsGood (pos receive -ℤ pos device) offset
    → mapped_time (pos device) offset (pos receive') ≡ pos device +ℤ offset
unfolding mapped_time
mapped-plain device receive receive' offset h k later good =
    let near = sum-IsNear (pos device) (pos receive) offset good.0 in
    rw (wrap_sum device receive offset h k good) (
      if_no (ltb_ℤ (pos receive') (pos device +ℤ offset)) _ _ _
        (below-not (pos receive') (pos device +ℤ offset) (omega arith)) refl)

-- The odometry that came so far, the oldest first: device time and receive time.
abbrev pub observe_all : List (ℕ × ℕ) → Mapper → Mapper
observe_all [] m = m
observe_all ((device, receive) ∷ rest) m =
    observe_all rest (observe_odometry device (pos receive) m).0

-- Times below 2 ^ 62 ns, which is 146 years.
abbrev pub IsInTime : ℕ × ℕ → Type 0
IsInTime (device, receive) = (device < 2 ^ 62) × (receive < 2 ^ 62)

observed-IsShort :
    (device receive : ℕ)
    → IsInTime (device, receive)
    → (wrap (pos receive -ℤ pos device) ≡ pos receive -ℤ pos device)
      × IsShort (pos receive -ℤ pos device)
observed-IsShort device receive (h, k) = (
  wrap_difference (pos receive) (pos device) (omega arith) (omega arith),
  omega (arith, difference_parts (pos receive) (pos device)),
)

-- What an observation in time leaves, and the time that it gives.
observe-is :
    (m : Mapper) (device receive : ℕ)
    → IsInTime (device, receive)
    → IsShort m.offset_ns
    → IsGood (pos receive -ℤ pos device) (observe_odometry device (pos receive) m).0.offset_ns
      × ((observe_odometry device (pos receive) m).0.initialized ≡ true)
      × ((observe_odometry device (pos receive) m).1
          ≡ pos device +ℤ (observe_odometry device (pos receive) m).0.offset_ns)
unfolding observe_odometry
observe-is m device receive h k =
    let small : is_too_large device ≡ false = ground (arith, h.0) in
    let o = observed-IsShort device receive h in
    let good = next_offset-IsGood (pos device) (pos receive -ℤ pos device) m o.1 k in
    rw (small, o.0) (good, refl, mapped-plain device receive receive _ h.0 h.1 (omega arith) good)

observe_all-IsShort :
    (seen : List (ℕ × ℕ)) (m : Mapper)
    → All IsInTime seen
    → IsShort m.offset_ns
    → IsShort (observe_all seen m).offset_ns
observe_all-IsShort [] m h k = k
observe_all-IsShort ((device, receive) ∷ rest) m (t, h) k =
    observe_all-IsShort rest (observe_odometry device (pos receive) m).0 h
      (observe-is m device receive t k).0.1

-- Whatever odometry a new mapper has seen, with device and receive times below 2 ^ 62 ns: the time of a
-- further such datagram is at most the time at which it is received and at most two seconds before
-- that; a point cloud of the same device time, received then or later, gets the same time; and the time
-- of a point cloud of any device time is never later than the time at which it is received.
pub observe_odometry-IsNear :
    (seen : List (ℕ × ℕ)) (device device' receive receive' receive'' : ℕ)
    → All IsInTime seen
    → IsInTime (device, receive)
    → receive ≤ receive'
    → let m = observe_all seen constructed in
      let (m', time) = observe_odometry device (pos receive) m in
      IsNear (pos receive) time
      × (map_cloud device (pos receive') m' ≡ time)
      × (map_cloud device' (pos receive'') m' ≤ℤ pos receive'')
unfolding map_cloud
observe_odometry-IsNear seen device device' receive receive' receive'' s h later =
    let m : Mapper = observe_all seen constructed in
    let m' : Mapper = (observe_odometry device (pos receive) m).0 in
    let small : is_too_large device ≡ false = ground (arith, h.0) in
    let (good, begun, is) =
      observe-is m device receive h (observe_all-IsShort seen constructed s (omega arith)) in
    (
      subst (IsNear (pos receive)) (sym is)
          (sum-IsNear (pos device) (pos receive) m'.offset_ns good.0),
      rw (begun, small)
          (mapped-plain device receive receive' m'.offset_ns h.0 h.1 later good ∙ sym is),
      if_cases (λ t. t ≤ℤ pos receive'') (not m'.initialized || is_too_large device') _ _
          (λ _. omega arith) (λ _. mapped-not_late (pos device') m'.offset_ns (pos receive'')),
    )
