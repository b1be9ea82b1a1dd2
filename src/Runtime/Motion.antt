-- ===== src/Runtime/Motion.antt =====
-- What a zero target makes the worker send, how a session ends, and the reconnect delay.
use Prim.Native.Nat.{◌^◌}
use Prim.Native.Nat.pow
use native.Mathlib.Nat.{mul-le-mul_left, mul_assoc}
use hypertron_sw01_ros2_brid.Prelude.{
  ℕ, zero, suc, max, ap, sym, ◌∙◌, ◌*◌, ◌≤◌, min, ◌≡◌, true, false, not, ◌∷◌, arith, ◌⊎◌,
}
use hypertron_sw01_ros2_brid.Prelude.Float.{FloatOps, FloatLaws}
use hypertron_sw01_ros2_brid.Controller.Data.{VelocityPayload}
use hypertron_sw01_ros2_brid.Controller.Gate
use hypertron_sw01_ros2_brid.Runtime.Types.{
  Vendor, Runtime, RuntimeConfig, moves, success, is_disconnected, call, notify_event,
}
use hypertron_sw01_ros2_brid.Runtime.Worker.{wait_backoff, invalidate_session}
use hypertron_sw01_ros2_brid.Runtime.Loop.{is_nonzero, send_target, end_session}

-- The delay after `n` failures in a row, from the configured one on.
abbrev pub nth_delay : RuntimeConfig → ℕ → ℕ
nth_delay config zero = config.reconnect_initial_delay
nth_delay config (suc n) = wait_backoff config (nth_delay config n)

doubled-cut :
    (d p m : ℕ)
    → d ≤ p
    → max (min (max d (min p m) * 2) m) (max d (min p m)) ≡ max d (min (p * 2) m)
doubled-cut d p m h = omega arith

wait_backoff-is :
    (config : RuntimeConfig) (d : ℕ)
    → wait_backoff config d ≡ max (min (d * 2) config.reconnect_max_delay) d
unfolding wait_backoff
wait_backoff-is config d = ground arith

doubled : (d n : ℕ) → d * 2 ^ suc n ≡ d * 2 ^ n * 2
doubled d n = ap (λ t. d * t) (pow.suc 2 n) ∙ sym (mul_assoc d (2 ^ n) 2)

one_at_least : (n : ℕ) → 1 ≤ 2 ^ n
one_at_least zero = omega arith
one_at_least (suc n) = omega (arith, one_at_least n, pow.suc 2 n)

-- The reconnect delay after `n` failures in a row is the initial delay doubled `n` times and cut at the
-- maximum, but never less than the initial delay, also if that is above the maximum.
pub wait_backoff-nth :
    (config : RuntimeConfig) (n : ℕ)
    → nth_delay config n
      ≡ max config.reconnect_initial_delay
          (min (config.reconnect_initial_delay * 2 ^ n) config.reconnect_max_delay)
wait_backoff-nth config zero = omega arith
wait_backoff-nth config (suc n) =
    let d : ℕ = config.reconnect_initial_delay in
    let m : ℕ = config.reconnect_max_delay in
    let grown : d ≤ d * 2 ^ n = omega (arith, mul-le-mul_left d (one_at_least n)) in
    let twice : d * 2 ^ suc n ≡ d * 2 ^ n * 2 = doubled d n in
    wait_backoff-is config (nth_delay config n)
    ∙ ap (λ x. max (min (x * 2) m) x) (wait_backoff-nth config n)
    ∙ doubled-cut d (d * 2 ^ n) m grown
    ∙ ap (λ x. max d (min x m)) (sym twice)

module _ {F : Type 0} ⦃float : FloatOps F⦄ ⦃vendor : Vendor F⦄ where
  pub no_velocity-is_zero : FloatLaws F float → is_nonzero {F = F} Gate.no_velocity ≡ false
  no_velocity-is_zero laws = ground (arith, laws.eq_refl float.zero_value laws.zero_is_finite)

  pub send_target-zero :
      (w : Runtime F)
      → is_nonzero {F = F} Gate.no_velocity ≡ false
      → ((w.last_sent_nonzero ≡ true)
          × ((send_target Gate.no_velocity w).calls ≡ moves Gate.no_velocity ∷ w.calls)
          × ((send_target Gate.no_velocity w).last_sent_nonzero
              ≡ not (success (vendor.answer (moves Gate.no_velocity ∷ w.calls)))))
        ⊎ ((w.last_sent_nonzero ≡ false) × (send_target Gate.no_velocity w ≡ w))
  unfolding send_target call notify_event
  send_target-zero w z = ground arith

module _ {F : Type 0} ⦃float : FloatOps F⦄ where
  -- After the end of a session the safety gate accepts no velocity, no tick sends one, and the test of
  -- the connection with which requests begin says that the runtime is disconnected.
  pub end_session-closes :
      (now later : ℕ) (v : VelocityPayload F) (w : Runtime F)
      → let w' = end_session now w in
        ((Gate.accept_velocity later v w'.controller).1.accepted ≡ false)
        × ((Gate.velocity_for_tick later w'.controller).accepted ≡ false)
        × (is_disconnected w' ≡ true)
  unfolding end_session Gate.accept_velocity Gate.velocity_for_tick Gate.invalidate_connection
      invalidate_session call
  end_session-closes now later v w = ground arith
