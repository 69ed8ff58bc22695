-- ===== src/Phoenix/Retry.antt =====
-- What the retry of src/main/cpp/utils/PhoenixHelper.cpp does for every function it is given.
use ckriopassthru.Base.{ℕ, zero, suc, ◌≡◌, Bool, true, false, some, arith, if◌then◌else◌}
use ckriopassthru.Phoenix.{ErrorCode, success, is_success, run_phoenix_function_with_retry}

module _ {ℓ} {S : Type ℓ} (func : S → S × ErrorCode) where
  -- The state after `n` calls, and the code of the call after those.
  unfoldable pub after : ℕ → S → S
  after zero s = s
  after (suc n) s = after n (func s).0

  unfoldable pub code_at : ℕ → S → ErrorCode
  unfolding after
  code_at n s = (func (after n s)).1

  -- The calls made: up to the first success, and four at most.
  unfoldable pub calls : S → ℕ
  calls s =
      if is_success (code_at 0 s)
      then 1
      else if is_success (code_at 1 s)
      then 2
      else if is_success (code_at 2 s)
      then 3
      else 4

  -- One of the first three calls succeeds.
  abbrev pub in_three : S → Bool
  in_three s =
      if is_success (code_at 0 s)
      then true
      else if is_success (code_at 1 s)
      then true
      else is_success (code_at 2 s)

  -- A function is called until it succeeds, four times at most; the answer is whether one of the
  -- first three calls succeeded.
  pub run_phoenix_function_with_retry_lem :
      (s : S) → run_phoenix_function_with_retry func s ≡ some (after (calls s) s, in_three s)
  unfolding run_phoenix_function_with_retry code_at calls after
  run_phoenix_function_with_retry_lem s = ground arith

  -- A function that fails three times and then succeeds is reported as failed.
  retry_lost_success :
      (s : S)
      → is_success (code_at 0 s) ≡ false
      → is_success (code_at 1 s) ≡ false
      → is_success (code_at 2 s) ≡ false
      → code_at 3 s ≡ success
      → run_phoenix_function_with_retry func s ≡ some (after 4 s, false)
  unfolding run_phoenix_function_with_retry code_at calls after
  retry_lost_success s a b c d = ground arith
