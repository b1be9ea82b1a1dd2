-- ===== src/Lidar/Receiver/Throttle.antt =====
-- Warnings about datagrams come at most once a second.
use hypertron_sw01_ros2_brid.Prelude.{
  ℕ, ◌+◌, ◌-◌, ◌≤◌, ◌≡◌, ◌⊎◌, inl, inr, refl, Bool, true, false, not, List, [], ◌∷◌, ◌++◌, Option,
  none, some, arith, ltb, if◌then◌else◌, ◌>>=◌, bind_split, map, if_cases, subst, sym, ap,
}
use hypertron_sw01_ros2_brid.Prelude.Double.{DoubleOps, Narrowing}
use hypertron_sw01_ros2_brid.Prelude.Text.{Bytes}
use hypertron_sw01_ros2_brid.Lidar.Types.{LidarPoint, PointEq, PointCloudFrame}
use hypertron_sw01_ros2_brid.Lidar.Parse.{
  LidarParseConfig, PointCloudResult, parse_point_cloud_packet,
}
use hypertron_sw01_ros2_brid.Lidar.Odometry.{LidarOdometry, OdometryResult, parse_odometry_packet}
use hypertron_sw01_ros2_brid.Lidar.Receiver.{
  Readings, LidarSink, Emitted, on_frame, on_odometry, on_parse_warning, LoopState, LidarStreamKind,
  point_cloud, odometry, should_emit_warning, warn, emit_frame, take_packet, add_parsed,
  expire_pass, pass_point_cloud, take_odometry, pass_odometry,
}

-- When warnings are given.
unfoldable pub warning_times : {D F : Type 0} → List (ℕ × Emitted D F) → List ℕ
warning_times [] = []
warning_times ((t, on_parse_warning reason) ∷ rest) = t ∷ warning_times rest
warning_times ((t, on_frame frame) ∷ rest) = warning_times rest
warning_times ((t, on_odometry odom) ∷ rest) = warning_times rest

-- Each time is at least a second, 1000 ms, after the one before, the first after `last`.
abbrev pub Spaced : ℕ → List ℕ → Type 0
Spaced last [] = Unit
Spaced last (t ∷ ts) = (last + 1000 ≤ t) × Spaced t ts

abbrev tagged : {D F : Type 0} → ℕ → List (Emitted D F) → List (ℕ × Emitted D F)
tagged now out = map (λ x. (now, x)) out

-- What comes of a pass gives no warning and leaves the throttle alone, or gives one and sets it.
abbrev Throttled : {D F : Type 0} → ℕ → LoopState F → LoopState F × List (Emitted D F) → Type 0
Throttled now s r =
    ((warning_times (tagged now r.1) ≡ []) × (r.0.last_warning ≡ s.last_warning))
    ⊎ ((warning_times (tagged now r.1) ≡ now ∷ [])
        × (s.last_warning + 1000 ≤ now)
        × (r.0.last_warning ≡ now))

none_of :
    {D : Type 0} (F : Type 0) (set : Bool) (now : ℕ) (odom : LidarOdometry D)
    → warning_times {F = F} (tagged now (if set then on_odometry odom ∷ [] else [])) ≡ []
unfolding warning_times
none_of F true now odom = refl
none_of F false now odom = refl

warn-Throttled :
    {F : Type 0} (D : Type 0) (sink : LidarSink) (now : ℕ) (reason : Bytes) (s : LoopState F)
    → Throttled {D = D} now s (warn sink now reason s)
unfolding warn should_emit_warning warning_times
warn-Throttled D sink now reason s =
    if_cases (Throttled {D = D} now s) (not sink.has_on_parse_warning) _ _ (λ _. inl (refl, refl))
      (λ set.
        if_cases
          (λ (r : Bool × ℕ).
            Throttled {D = D} now s
              (record s { last_warning = r.1 }, if r.0 then on_parse_warning reason ∷ [] else []))
          (ltb (now - s.last_warning) 1000) _ _ (λ _. inl (refl, refl))
          (λ late. inr (refl, ground arith, refl)))

frame-Throttled :
    {F : Type 0} (D : Type 0) (sink : LidarSink) (now : ℕ)
    (frame : Option (PointCloudFrame (LidarPoint F)))
    → warning_times (tagged now (emit_frame {D = D} sink frame)) ≡ []
unfolding warning_times
frame-Throttled D sink now none = refl
frame-Throttled D sink now (some frame) = ground arith

made_is {ℓ} : {A : Type ℓ} {a b : A} → some a ≡ some b → a ≡ b
made_is e = cc

carry_over :
    {D F : Type 0} {now : ℕ} {made r : LoopState F × List (Emitted D F)} (s : LoopState F)
    → some made ≡ some r
    → Throttled now s made
    → Throttled now s r
carry_over {now = now} s e h = subst (Throttled now s) (made_is e) h

packet-Throttled :
    {F : Type 0} (D : Type 0) ⦃e : PointEq (LidarPoint F)⦄ (sink : LidarSink) (t : Readings)
    (parsed : PointCloudResult F) (s : LoopState F)
    → Throttled {D = D} t.at_warning s (expire_pass t.at_expiry (take_packet sink t parsed s))
unfolding take_packet add_parsed
packet-Throttled D sink t parsed s =
    if_cases (λ r. Throttled {D = D} t.at_warning s (expire_pass t.at_expiry r)) parsed.ok _ _
      (λ _. inl (frame-Throttled _ sink t.at_warning _, refl))
      (λ _. warn-Throttled _ sink t.at_warning parsed.reason s)

odometry-Throttled :
    {D F : Type 0} (sink : LidarSink) (t : Readings) (parsed : OdometryResult D) (s : LoopState F)
    → Throttled t.at_warning s (take_odometry sink t parsed s)
unfolding warning_times
odometry-Throttled sink t parsed s =
    if_cases (Throttled t.at_warning s) (not parsed.ok) _ _
      (λ _. warn-Throttled _ sink t.at_warning parsed.reason s)
      (λ _. inl (none_of _ sink.has_on_odometry t.at_warning parsed.odometry, refl))

append-Spaced :
    (last now last' : ℕ) (ts us : List ℕ)
    → ((ts ≡ []) × (last' ≡ last)) ⊎ ((ts ≡ now ∷ []) × (last + 1000 ≤ now) × (last' ≡ now))
    → Spaced last' us
    → Spaced last (ts ++ us)
append-Spaced last now last' ts us (inl (e, e')) h = rw e (subst (λ l. Spaced l us) e' h)
append-Spaced last now last' ts us (inr (e, le, e')) h = rw e (le, subst (λ l. Spaced l us) e' h)

warning_times-append :
    {D F : Type 0} (xs ys : List (ℕ × Emitted D F))
    → warning_times (xs ++ ys) ≡ warning_times xs ++ warning_times ys
unfolding warning_times
warning_times-append [] ys = refl
warning_times-append ((t, on_parse_warning r) ∷ xs) ys = ap (◌∷◌ t) (warning_times-append xs ys)
warning_times-append ((t, on_frame f) ∷ xs) ys = warning_times-append xs ys
warning_times-append ((t, on_odometry x) ∷ xs) ys = warning_times-append xs ys

module _ {D F : Type 0} ⦃o : DoubleOps D⦄ ⦃c : Narrowing D F⦄ ⦃e : PointEq (LidarPoint F)⦄ where
  -- One pass of the loop of the receiver's kind.
  unfoldable pub pass :
      LidarStreamKind
      → LidarSink
      → LidarParseConfig D
      → Readings
      → Option Bytes
      → LoopState F
      → Option (LoopState F × List (Emitted D F))
  pass point_cloud sink config t received s = pass_point_cloud sink config t received s
  pass odometry sink config t received s = pass_odometry sink config t received s

  -- Passes one after the other; what calls back is listed with the pass's reading for a warning.
  unfoldable pub run :
      LidarStreamKind
      → LidarSink
      → LidarParseConfig D
      → List (Readings × Option Bytes)
      → LoopState F
      → Option (LoopState F × List (ℕ × Emitted D F))
  run kind sink config [] s = some (s, [])
  run kind sink config ((t, received) ∷ rest) s = do
    (s', out) ← pass kind sink config t received s
    (s'', more) ← run kind sink config rest s'
    some (s'', map (λ x. (t.at_warning, x)) out ++ more)

  pass-Throttled :
      (kind : LidarStreamKind) (sink : LidarSink) (config : LidarParseConfig D) (t : Readings)
      (received : Option Bytes) (s : LoopState F) (r : LoopState F × List (Emitted D F))
      → pass kind sink config t received s ≡ some r
      → Throttled t.at_warning s r
  unfolding pass pass_point_cloud pass_odometry take_packet add_parsed warning_times
  pass-Throttled point_cloud sink config t none s r h = carry_over s h (inl (refl, refl))
  pass-Throttled point_cloud sink config t (some buffer) s r h =
      let (parsed, _, h) = bind_split (parse_point_cloud_packet (some buffer) config) _ r h in
      carry_over s h (packet-Throttled D sink t parsed s)
  pass-Throttled odometry sink config t none s r h = carry_over s h (inl (refl, refl))
  pass-Throttled odometry sink config t (some buffer) s r h =
      let (parsed, _, h) = bind_split (parse_odometry_packet (some buffer) config) _ r h in
      carry_over s h (odometry-Throttled sink t parsed s)

  -- Over any run of a receiver's loop, of either kind, whatever it receives and however its clock
  -- runs: each warning is given at least a second after the one before, and the first at least a
  -- second after the reading at which the throttle stood.
  pub run-Spaced :
      (kind : LidarStreamKind) (sink : LidarSink) (config : LidarParseConfig D)
      (passes : List (Readings × Option Bytes)) (s : LoopState F)
      (r : LoopState F × List (ℕ × Emitted D F))
      → run kind sink config passes s ≡ some r
      → Spaced s.last_warning (warning_times r.1)
  unfolding run warning_times
  run-Spaced kind sink config [] s r h = rw (sym (made_is h)) tt
  run-Spaced kind sink config ((t, received) ∷ rest) s r h =
      let (first, e, h) = bind_split (pass kind sink config t received s) _ r h in
      let (more, e', h) = bind_split (run kind sink config rest first.0) _ r h in
      rw (sym (made_is h)) (
        rw (warning_times-append (tagged t.at_warning first.1) more.1) (
          append-Spaced s.last_warning t.at_warning first.0.last_warning _ (warning_times more.1)
            (pass-Throttled kind sink config t received s first e)
            (run-Spaced kind sink config rest first.0 more e')))
