-- ===== src/Webhooks/Policy.antt =====
-- `RetryPolicy` of app/workers/webhook_dispatcher.py. Python's numbers are a parameter with what is
-- done to them. Whole numbers below 0 count as 0 here, which the `max(1, …)` over them makes the same.
use text.Mathlib.Text.{◌==◌ as str_eq}
use iotaps.Common.{
  ℕ, ◌+◌, max, String, Bool, true, false, not, ◌&&◌, Option, none, some, List, [], ◌∷◌,
  if◌then◌else◌,
}
use iotaps.Json.{
  Value, null, boolean, number, string, array, object, Fields, end, field, Floats, get, show,
}

-- What the worker does with numbers. An operation that raises (`OverflowError`, or `ValueError` for
-- a NaN) gives nothing, and so does a text that is no number.
pub record Numbers (N : Type 0) : Type 0 where
  pub floats : Floats N
  -- `int(x)`
  pub whole : N → Option ℕ
  -- `int(text.strip())` and `float(text.strip())`
  pub parse_int : String → Option ℕ
  pub parse_float : String → Option N
  -- `x * y`, `x ** i`, `min(x, y)`, `max(0.0, x)`
  pub times : N → N → N
  pub power : N → ℕ → Option N
  pub least : N → N → N
  pub at_least_zero : N → N
  pub is_positive : N → Bool
  pub initial_default : N
  pub factor_default : N
  pub max_default : N

pub record RetryPolicy (N : Type 0) : Type 0 where
  pub max_attempts : ℕ
  pub backoff_initial : N
  pub backoff_factor : N
  pub backoff_max : N

abbrev pub default_max_attempts : ℕ
default_max_attempts = 3

-- `key in config`
unfoldable pub has_key : {N : Type 0} → String → Fields N → Bool
has_key key end = false
has_key key (field k v rest) = if str_eq k key then true else has_key key rest

-- `_first(config, *keys)`
unfoldable pub first : {N : Type 0} → Fields N → List String → Value N
unfolding has_key get
first config [] = null
first config (key ∷ keys) =
    let rest = first config keys in if has_key key config then get key config else rest

module _ {N : Type 0} (numbers : Numbers N) where
  unfoldable pub default_policy : RetryPolicy N
  default_policy = record {
    max_attempts = default_max_attempts;
    backoff_initial = numbers.initial_default;
    backoff_factor = numbers.factor_default;
    backoff_max = numbers.max_default;
  }

  abbrev pub or_default : {A : Type 0} → A → Option A → A
  or_default default none = default
  or_default default (some a) = a

  -- A number that `int` refuses raises.
  unfoldable pub coerce_int : Value N → ℕ → Option ℕ
  coerce_int (boolean b) default = some default
  coerce_int (number x) default = numbers.whole x
  coerce_int null default = some (or_default default (numbers.parse_int (show numbers.floats null)))
  coerce_int (string s) default =
      some (or_default default (numbers.parse_int (show numbers.floats (string s))))
  coerce_int (array s) default =
      some (or_default default (numbers.parse_int (show numbers.floats (array s))))
  coerce_int (object fs) default =
      some (or_default default (numbers.parse_int (show numbers.floats (object fs))))

  unfoldable pub coerce_float : Value N → N → N
  coerce_float (boolean b) default = default
  coerce_float (number x) default = x
  coerce_float null default = or_default default (numbers.parse_float (show numbers.floats null))
  coerce_float (string s) default =
      or_default default (numbers.parse_float (show numbers.floats (string s)))
  coerce_float (array s) default =
      or_default default (numbers.parse_float (show numbers.floats (array s)))
  coerce_float (object fs) default =
      or_default default (numbers.parse_float (show numbers.floats (object fs)))

  -- Whether the number of attempts is given as a number of retries.
  unfoldable pub counts_retries : Fields N → Bool
  counts_retries config =
      (not (has_key "max_attempts" config) && not (has_key "attempts" config))
      && has_key "max_retries" config

  unfoldable pub policy_with : Fields N → ℕ → RetryPolicy N
  policy_with config attempts = record {
    max_attempts = max 1 (if counts_retries config then attempts + 1 else attempts);
    backoff_initial = numbers.at_least_zero (
        coerce_float (first config ("backoff_initial" ∷ "backoff" ∷ "initial_delay" ∷ "delay" ∷ []))
          numbers.initial_default);
    backoff_factor = numbers.at_least_zero (
        coerce_float (first config ("backoff_factor" ∷ "factor" ∷ "multiplier" ∷ []))
          numbers.factor_default);
    backoff_max = numbers.at_least_zero (
        coerce_float (first config ("backoff_max" ∷ "max_backoff" ∷ "max_delay" ∷ []))
          numbers.max_default);
  }

  -- The policy of a configuration, which is a dictionary or `None`; nothing where it raises.
  unfoldable pub from_config : Option (Fields N) → Option (RetryPolicy N)
  from_config none = some default_policy
  from_config (some config) =
      elim (coerce_int (first config ("max_attempts" ∷ "max_retries" ∷ "attempts" ∷ []))
        default_max_attempts) [ none ↦ none | some attempts ↦ some (policy_with config attempts) ]

  -- The wait before the retry of this index, from 0 on.
  unfoldable pub backoff_for_retry : RetryPolicy N → ℕ → Option N
  backoff_for_retry p i = elim (numbers.power p.backoff_factor i) [
    | none ↦ none
    | some grown ↦ some (
        numbers.at_least_zero (numbers.least (numbers.times p.backoff_initial grown) p.backoff_max))
  ]
