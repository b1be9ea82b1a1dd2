-- ===== src/Runtime/Connect.antt =====
-- One connection attempt of `worker_main`, up to the start of its session, and the telemetry
-- subscriptions. The preflight's decision is a parameter.
use hypertron_sw01_ros2_brid.Prelude.{
  ℕ, ◌≡◌, Bool, true, false, not, ◌&&◌, ◌++◌, List, ◌∷◌, if◌then◌else◌, ◌⊎◌,
}
use hypertron_sw01_ros2_brid.Prelude.Text.{Bytes, codes}
use hypertron_sw01_ros2_brid.Prelude.Float.{FloatOps}
use hypertron_sw01_ros2_brid.Controller.Gate
use hypertron_sw01_ros2_brid.Runtime.Types.{
  Result, success, ok, Vendor, SdkCall, inits, deinits, subscribes_imu, subscribes_sport,
  subscribes_lidar, Runtime, notify_event, call, result,
}
use hypertron_sw01_ros2_brid.Runtime.Requests.{event_info, event_warning}
use hypertron_sw01_ros2_brid.Runtime.Worker.{invalidate_session}

module _ {F : Type 0} ⦃float : FloatOps F⦄ where
  -- What each failed attempt does before the backoff.
  unfoldable pub give_up : ℕ → Bytes → Runtime F → Runtime F
  give_up now message w =
      call deinits (invalidate_session now (notify_event event_warning message w))

module _ {F : Type 0} ⦃float : FloatOps F⦄ ⦃vendor : Vendor F⦄ where
  unfoldable pub subscribe_telemetry : Runtime F → Runtime F × Result
  subscribe_telemetry w =
      let imu : Runtime F = call subscribes_imu w in
      let sport : Runtime F = call subscribes_sport imu in
      let lidar : Runtime F = call subscribes_lidar sport in
      if not (success (result imu))
      then (imu, result imu)
      else if not (success (result sport))
      then (sport, result sport)
      else if not (w.config.enable_lidar_stream && not w.config.lidar_disabled)
      then (sport, ok (codes "success"))
      else if not (success (result lidar))
      then (lidar, result lidar)
      else (lidar, ok (codes "success"))

  -- The attempt of a runtime that is not stopping; whether a session begins stands beside it. What
  -- other threads do in the meantime comes before or after the attempt.
  unfoldable pub attempt : ℕ → Bool → Bytes → Runtime F → Runtime F × Bool
  attempt now ready message w =
      let begun : Runtime F = call inits (record w { link_drop_latched = false }) in
      let (subscribed, r) = subscribe_telemetry begun in
      if not ready
      then (give_up now (codes "network preflight failed: " ++ message) w, false)
      else if not (success (result begun))
      then (give_up now (codes "sdk init failed: " ++ (result begun).message) begun, false)
      else if not (success r)
      then (give_up now (codes "sdk subscription failed: " ++ r.message) subscribed, false)
      else (
        notify_event event_info (codes "connected") (record subscribed { connected = true }),
        true,
      )

  -- The state in which an attempt subscribes.
  abbrev initialized : Runtime F → Runtime F
  initialized w = call inits (record w { link_drop_latched = false })

  -- The SDK took the subscriptions, that of the LiDAR exactly if it is configured.
  abbrev pub Subscribed : Runtime F → List (SdkCall F) → Type 0
  Subscribed w calls =
      let sport = subscribes_sport ∷ subscribes_imu ∷ inits ∷ w.calls in
      let lidar = w.config.enable_lidar_stream && not w.config.lidar_disabled in
      (success (vendor.answer (subscribes_imu ∷ inits ∷ w.calls)) ≡ true)
      × (success (vendor.answer sport) ≡ true)
      × (((lidar ≡ true)
            × (calls ≡ subscribes_lidar ∷ sport)
            × (success (vendor.answer (subscribes_lidar ∷ sport)) ≡ true))
          ⊎ ((lidar ≡ false) × (calls ≡ sport)))

  -- The state in which a session begins.
  abbrev joined : Runtime F → Runtime F
  joined w =
      notify_event event_info (codes "connected")
        (record (subscribe_telemetry (initialized w)).0 { connected = true })
