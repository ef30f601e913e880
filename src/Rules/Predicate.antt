-- ===== src/Rules/Predicate.antt =====
-- Triggers, conditions, delays and actions as their configuration states them: `_telemetry_value`,
-- `_OPERATORS`, `evaluate_predicate`, `delay_seconds` and `parse_action`.
use iotaps.Common.{String, Bool, true, false, Option, none, some, if◌then◌else◌}
use iotaps.Common.Text.{is_word}
use iotaps.Json.{Value, null, number, object, Fields, Floats, get, show, or_else}

-- The sample itself, or its `data` object where it is the wire envelope.
unfoldable pub sample_data : {N : Type 0} → Fields N → Fields N
unfolding get
sample_data telemetry = elim (get "data" telemetry) [ object fs ↦ fs | _ ↦ telemetry ]

unfoldable pub telemetry_value : {N : Type 0} → Fields N → String → Option N
unfolding sample_data
telemetry_value telemetry key = elim (get key (sample_data telemetry)) [
  | number n ↦ some n
  | _ ↦ none
]

module _ {N : Type 0} (floats : Floats N) where
  -- `_OPERATORS.get(str(op).strip().lower())`
  unfoldable pub comparator : String → Option (N → N → Bool)
  unfolding is_word
  comparator op =
      if is_word op "gt"
      then some floats.gt
      else if is_word op ">"
      then some floats.gt
      else if is_word op "gte"
      then some floats.ge
      else if is_word op ">="
      then some floats.ge
      else if is_word op "lt"
      then some floats.lt
      else if is_word op "<"
      then some floats.lt
      else if is_word op "lte"
      then some floats.le
      else if is_word op "<="
      then some floats.le
      else if is_word op "eq"
      then some floats.eq
      else if is_word op "=="
      then some floats.eq
      else if is_word op "ne"
      then some floats.ne
      else if is_word op "!="
      then some floats.ne
      else none

  -- The comparison of a reading with the threshold, false where either part is malformed.
  unfoldable pub compare_reading : Option (N → N → Bool) → Value N → N → Bool
  compare_reading none threshold v = false
  compare_reading (some f) (number t) v = f v t
  compare_reading (some f) _ v = false

  -- The test of a reading: any will do where there is no operator.
  unfoldable pub test_reading : Value N → Value N → N → Bool
  unfolding comparator compare_reading show
  test_reading null threshold v = true
  test_reading op threshold v = compare_reading (comparator (show floats op)) threshold v

  unfoldable pub test_key : Fields N → Fields N → Value N → Bool
  unfolding telemetry_value test_reading show
  test_key config telemetry null = true
  test_key config telemetry key = elim (telemetry_value telemetry (show floats key)) [
    | none ↦ false
    | some v ↦ test_reading (get "op" config) (get "value" config) v
  ]

  unfoldable pub evaluate_predicate : Fields N → Fields N → Bool
  unfolding test_key get
  evaluate_predicate config telemetry = test_key config telemetry (get "key" config)

  -- The delay's duration in milliseconds, if there is one.
  unfoldable pub delay_from_ms : Value N → N
  delay_from_ms (number n) = floats.clamp (floats.thousandth n)
  delay_from_ms _ = floats.nought

  -- The duration of the first of the given settings that is a number.
  unfoldable pub delay_from : Value N → N → N
  delay_from (number n) other = floats.clamp n
  delay_from _ other = other

  unfoldable pub delay_seconds : Fields N → N
  unfolding delay_from delay_from_ms get
  delay_seconds config = delay_from (get "seconds" config) (
      delay_from (get "duration" config)
        (delay_from (get "delay_seconds" config) (delay_from_ms (get "ms" config))))

-- `ActionKind`
pub data ActionKind : Type 0 where
  command notify webhook : ActionKind

-- `Action`: the kind with the raw configuration.
pub record Action (N : Type 0) : Type 0 where
  pub kind : ActionKind
  pub config : Fields N

unfoldable pub kind_of : String → Option ActionKind
unfolding is_word
kind_of s =
    if is_word s "command"
    then some command
    else if is_word s "notify"
    then some notify
    else if is_word s "webhook"
    then some webhook
    else none

module _ {N : Type 0} (floats : Floats N) where
  unfoldable pub raw_kind : Fields N → Value N
  unfolding or_else get
  raw_kind config =
      or_else floats (or_else floats (get "action" config) (get "kind" config))
        (get "action_type" config)

  unfoldable pub parse_kind : Value N → Option ActionKind
  unfolding kind_of show
  parse_kind null = none
  parse_kind v = kind_of (show floats v)

  unfoldable pub parse_action : Fields N → Option (Action N)
  unfolding parse_kind raw_kind
  parse_action config = elim (parse_kind (raw_kind config)) [
    | none ↦ none
    | some k ↦ some (record { kind = k; config = config })
  ]
