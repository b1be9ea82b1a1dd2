-- ===== src/Runtime/Rejections.antt =====
-- The answers to refused mode requests.
use hypertron_sw01_ros2_brid.Prelude.{if◌then◌else◌, ◌==◌, not, ◌⊎◌, ℕ, ◌≡◌, some, none}
use hypertron_sw01_ros2_brid.Prelude.Float.{FloatOps}
use hypertron_sw01_ros2_brid.Prelude.Text.{Bytes, codes, contains}
use hypertron_sw01_ros2_brid.Controller.Data.{Controller}
use hypertron_sw01_ros2_brid.Controller.Modes.{normalized_mode, find_mode}
use hypertron_sw01_ros2_brid.Controller.Gate
use hypertron_sw01_ros2_brid.Runtime.Types.{
  res_running, res_invalid_param, res_not_init, res_without_auth, res_failed, Runtime,
}

module _ {F : Type 0} ⦃float : FloatOps F⦄ where
  -- The code for a name that the controller refuses, by the first reason that applies.
  abbrev pub RefusalCode : Bytes → Controller F → ℕ → Type 0
  RefusalCode name c code =
      ((find_mode (normalized_mode name) ≡ none)
        × (code ≡ (
            if contains (codes "pending") (normalized_mode name)
            then res_running
            else res_invalid_param)))
      ⊎ ((mode : ℕ) × (find_mode (normalized_mode name) ≡ some mode)
          × (code ≡ (
              if not c.driver_ready
              then res_failed
              else if c.mode_transition_pending
              then res_running
              else if not c.status.sdk_linked
              then res_not_init
              else if not (c.status.error_code == 0)
              then res_failed
              else if not c.status.control_authority
              then res_without_auth
              else res_failed)))
