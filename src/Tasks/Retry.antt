-- ===== src/Tasks/Retry.antt =====
-- TaskRetryCalculator of packages/tasks/src/retry/TaskRetryCalculator.ts.
use tauri_boilerplate.Base.{ℕ, ◌≡◌, refl, ◌≤◌, Bool, true, false, not, if◌then◌else◌, arith, ◌↔◌}
use tauri_boilerplate.Base.Int.{ℤ, pos, pos_part, sub_ℕ, leb_ℤ, ◌≤ℤ◌, ◌<ℤ◌}
use tauri_boilerplate.Tasks.Floats.{Floats}
use tauri_boilerplate.Tasks.Types.{
  ErrorClass, validation, authorization, compatibility, Thrown, platform, plain, value,
  TaskRetryPolicy,
}

-- Membership in NON_RETRYABLE_CLASSES.
abbrev pub is_permanent : ErrorClass → Bool
is_permanent authorization = true
is_permanent validation = true
is_permanent compatibility = true
is_permanent _ = false

-- The first two rules of `decide`: the flag of a PlatformError, then its class.
abbrev pub is_refused : Thrown → Bool
is_refused (platform c retryable m) = if not retryable then true else is_permanent c
is_refused _ = false

-- isNonRetryableClass
unfoldable pub is_non_retryable_class : Thrown → Bool
is_non_retryable_class (platform c retryable m) = if is_permanent c then true else not retryable
is_non_retryable_class _ = false

-- The outcomes of `decide`, without the text of the reason.
pub data RetryDecision : Type 0 where
  retry : (delay_ms : ℕ) → RetryDecision
  give_up : RetryDecision

module _ (F : Floats) where
  open F use {Num, one, two, add, sub, mul, pow, min, round}

  -- The delay before the next attempt; `random` is what Math.random() returns.
  unfoldable pub delay : Num → ℕ → TaskRetryPolicy F → ℕ
  delay random attempt policy =
      let base = mul policy.initial_delay_ms (pow policy.backoff_multiplier (sub_ℕ attempt 1)) in
      let capped = min base policy.max_delay_ms in
      let jitter_factor = add one (mul (sub (mul random two) one) policy.jitter) in
      pos_part (round (mul capped jitter_factor))

  -- decide
  unfoldable pub decide : Num → Thrown → ℕ → TaskRetryPolicy F → RetryDecision
  unfolding delay
  decide random error attempt policy =
      if is_refused error
      then give_up
      else if leb_ℤ policy.max_attempts (pos attempt)
      then give_up
      else retry (delay random attempt policy)

pos_part_mono : (a b : ℤ) → a ≤ℤ b → pos_part a ≤ pos_part b
pos_part_mono a b h = ground arith

class-refused : (e : Thrown) → is_non_retryable_class e ≡ is_refused e
unfolding is_non_retryable_class
class-refused (platform c retryable m) = ground arith
class-refused (plain m) = refl
class-refused (value t) = refl

-- `decide` allows a retry exactly when the error is not refused by its flag or its class and the
-- attempt is below the policy's maximum.
pub decide-retry_iff :
    (F : Floats) (random : F.Num) (error : Thrown) (attempt : ℕ) (policy : TaskRetryPolicy F)
    → ((ms : ℕ) × (decide F random error attempt policy ≡ retry ms))
      ↔ ((is_non_retryable_class error ≡ false) × (pos attempt <ℤ policy.max_attempts))
unfolding decide
decide-retry_iff F random error attempt policy =
    rw (class-refused error)
      (λ (ms, e). ground arith, λ (fine, below). (delay F random attempt policy, ground arith))
