-- ===== src/Lidar/Parse/Outcome.antt =====
-- The two outcomes of parsing a datagram, over both layouts.
use hypertron_sw01_ros2_brid.Prelude.{
  ◌≡◌, ◌⊎◌, inl, inr, refl, Bool, true, false, not, Option, some, arith, length, ltb, ◌==◌,
  bind_split, if◌then◌else◌, if_cases, match_cases, subst, sym,
}
use hypertron_sw01_ros2_brid.Prelude.Double.{DoubleOps, Narrowing}
use hypertron_sw01_ros2_brid.Prelude.Text.{Bytes, is_empty}
use hypertron_sw01_ros2_brid.Lidar.Wire.{read_u16_le}
use hypertron_sw01_ros2_brid.Lidar.Parse.{
  LidarParseConfig, PointCloudResult, packed_cloud, aligned_cloud, no_result, head_marker,
  parse_point_cloud_with_layout, fall_back, parse_bytes, parse_point_cloud_packet, validate_scales,
  make_reason, reject,
}
use hypertron_sw01_ros2_brid.Lidar.Parse.Sound.{Accepted, parse_with_layout-Accepted}
use hypertron_sw01_ros2_brid.Lidar.Parse.Refused.{HasReason, parse_with_layout-HasReason}

-- The datagram is there, its head is right, and one of the layouts accepts it.
abbrev pub IsRead : {F : Type 0} → Option Bytes → PointCloudResult F → Type 0
IsRead datagram r =
    (d : Bytes) × (datagram ≡ some d)
    × (read_u16_le d ≡ some head_marker)
    × (Accepted packed_cloud d r ⊎ Accepted aligned_cloud d r)

abbrev Settled : {F : Type 0} → Option Bytes → Option (PointCloudResult F) → Type 0
Settled {F} datagram res = (r : PointCloudResult F) → res ≡ some r → IsRead datagram r ⊎ HasReason r

same_result : {A : Type 0} {a b : A} → some a ≡ some b → a ≡ b
same_result e = cc

reject-Settled :
    {F : Type 0} (datagram : Option Bytes) (what : Bytes) → Settled {F = F} datagram (reject what)
unfolding make_reason
reject-Settled datagram what r e = inr (subst HasReason (same_result e) ((what, refl), refl, refl))

kept_reason :
    {F : Type 0} (first second : PointCloudResult F)
    → HasReason first
    → HasReason second
    → HasReason (record second {
      reason = if is_empty first.reason then second.reason else first.reason;
      ok = false;
    })
kept_reason first second h h' =
    if_cases (λ reason. HasReason (record second { reason = reason; ok = false }))
      (is_empty first.reason) _ _ (λ _. (h'.0, refl, h'.2)) (λ _. (h.0, refl, h'.2))

module _ {D F : Type 0} ⦃o : DoubleOps D⦄ ⦃c : Narrowing D F⦄ where
  second_settles :
      (d : Bytes) (config : LidarParseConfig D) (first : PointCloudResult F)
      (second : Bool × PointCloudResult F) (r : PointCloudResult F)
      → read_u16_le d ≡ some head_marker
      → HasReason first
      → parse_point_cloud_with_layout d aligned_cloud config first ≡ some second
      → (if second.0
          then some second.1
          else some (record second.1 {
            reason = if is_empty first.reason then second.1.reason else first.reason;
            ok = false;
          }))
        ≡ some r
      → IsRead (some d) r ⊎ HasReason r
  second_settles d config first (true, s) r headed h e e' =
      inl (
        d,
        refl,
        headed,
        inr (parse_with_layout-Accepted d aligned_cloud config first r (rw e (cc))),
      )
  second_settles d config first (false, s) r headed h e e' = inr (
      subst HasReason (same_result e') (
        kept_reason first s h
          (parse_with_layout-HasReason d aligned_cloud config first s h.1 h.2 e)))

  first_settles :
      (d : Bytes) (config : LidarParseConfig D) (first : Bool × PointCloudResult F)
      (r : PointCloudResult F)
      → read_u16_le d ≡ some head_marker
      → parse_point_cloud_with_layout d packed_cloud config no_result ≡ some first
      → (if first.0 then some first.1 else fall_back d config first.1) ≡ some r
      → IsRead (some d) r ⊎ HasReason r
  unfolding fall_back
  first_settles d config (true, f) r headed e e' = inl (
    d,
    refl,
    headed,
    inl (parse_with_layout-Accepted d packed_cloud config no_result r (rw e (cc))),
  )
  first_settles d config (false, f) r headed e e' =
      let (second, e'', h) =
        bind_split (parse_point_cloud_with_layout d aligned_cloud config f) _ r e' in
      second_settles d config f second r headed
        (parse_with_layout-HasReason d packed_cloud config no_result f refl refl e) e'' h

  -- Parsing ends in one of two ways: either the datagram is there with the head marker, and one of
  -- the two layouts accepts it; or the result is not ok, has no points, and has a message that begins
  -- with "lidar parse failure: ".
  pub parse_point_cloud_packet-settles :
      (datagram : Option Bytes) (config : LidarParseConfig D) (r : PointCloudResult F)
      → parse_point_cloud_packet datagram config ≡ some r
      → IsRead datagram r ⊎ HasReason r
  unfolding parse_point_cloud_packet parse_bytes fall_back
  parse_point_cloud_packet-settles datagram config r h =
      if_cases (Settled datagram) (not (validate_scales config)) _ _
        (λ _. reject-Settled datagram _)
        (λ valid r h.
          match_cases (Settled datagram) datagram _ _ (λ _. reject-Settled datagram _)
            (λ d there r h.
              if_cases (Settled datagram) (ltb (length d) 2) _ _ (λ _. reject-Settled datagram _)
                (λ long r h.
                  let (head, headed, h) = bind_split (read_u16_le d) _ r h in
                  if_cases (Settled datagram) (not (head == head_marker)) _ _
                    (λ _. reject-Settled datagram _)
                    (λ right r h.
                      let (first, e, h) =
                        bind_split (parse_point_cloud_with_layout d packed_cloud config no_result) _
                          r h in
                      subst (λ (p : Option Bytes). IsRead p r ⊎ HasReason r) (sym there)
                        (first_settles d config first r (rw headed (ground arith)) e h))
                    r h)
                r h)
            r h)
        r h
