-- ===== src/Phoenix.antt =====
-- src/main/cpp/utils/PhoenixHelper.cpp: the retry around a call into the Phoenix library, and the
-- names of the CAN buses. A call is a function on the state of the device, which returns an error
-- code. Console output is left out.
pub mod Retry
use Prim.Native.String.{String}
use ckriopassthru.Base.{
  ℕ, zero, suc, ◌+◌, Bool, true, false, Option, none, some, ltb, leb, if◌then◌else◌, ◌||◌, not,
}

-- `OK` is the one code that the program tells apart.
pub data ErrorCode : Type 0 where
  success : ErrorCode
  failure : ℕ → ErrorCode

abbrev pub is_success : ErrorCode → Bool
is_success success = true
is_success (failure n) = false

abbrev pub phoenix_retry_count : ℕ
phoenix_retry_count = 3

module _ {ℓ} {S : Type ℓ} where
  -- The `do` loop: the state, the last code and the counter when it ends; `none` if the fuel runs out.
  unfoldable pub retry_loop : ℕ → (S → S × ErrorCode) → ℕ → S → Option (S × ErrorCode × ℕ)
  retry_loop zero func retries s = none
  retry_loop (suc fuel) func retries s =
      let (s', code) = func s in
      let again = retry_loop fuel func (retries + 1) s' in
      if is_success code
      then some (s', code, retries)
      else if ltb retries phoenix_retry_count
      then again
      else some (s', code, retries + 1)

  -- The test after the loop.
  unfoldable pub verdict : Option (S × ErrorCode × ℕ) → Option (S × Bool)
  verdict none = none
  verdict (some (s, code, retries)) =
      some (s, if leb phoenix_retry_count retries || not (is_success code) then false else true)

  -- Four rounds are enough: the counter starts at 0 and stops the loop at 3.
  unfoldable pub run_phoenix_function_with_retry : (S → S × ErrorCode) → S → Option (S × Bool)
  unfolding retry_loop verdict
  run_phoenix_function_with_retry func s = verdict (retry_loop (suc phoenix_retry_count) func 0 s)

pub data CanInterface : Type 0 where
  rio_internal_can rio_canivore coprocessor_can : CanInterface
  other_interface : ℕ → CanInterface

unfoldable pub get_can_interface_name : CanInterface → String
get_can_interface_name rio_internal_can = "rio"
get_can_interface_name rio_canivore = "canivore1"
get_can_interface_name coprocessor_can = "rio"
get_can_interface_name (other_interface n) = "rio"
