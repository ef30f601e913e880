-- ===== src/Json.antt =====
-- JSON values, as the rule engine and the ingest pipeline read them after `json.loads`. The
-- program only compares, clamps and divides floats, so their type and these operations are taken
-- as a parameter, with the text that `str` gives of a number or a container.
use text.Mathlib.Text.{◌==◌ as str_eq}
use iotaps.Common.{String, Bool, true, false, not, if◌then◌else◌}

mutual
  pub data Value (N : Type 0) : Type 0 where
    null : Value N
    boolean : Bool → Value N
    number : N → Value N
    string : String → Value N
    array : String → Value N
    object : Fields N → Value N

  pub data Fields (N : Type 0) : Type 0 where
    end : Fields N
    field : String → Value N → Fields N → Fields N

-- What the program does with floats.
pub record Floats (N : Type 0) : Type 0 where
  pub gt : N → N → Bool
  pub ge : N → N → Bool
  pub lt : N → N → Bool
  pub le : N → N → Bool
  pub eq : N → N → Bool
  pub ne : N → N → Bool
  pub nought : N
  -- `max(0.0, x)`
  pub clamp : N → N
  -- `x / 1000.0`
  pub thousandth : N → N
  pub show_number : N → String
  pub show_object : Fields N → String

-- `d.get(key)`, with `null` for a missing key.
unfoldable pub get : {N : Type 0} → String → Fields N → Value N
get key end = null
get key (field k v rest) = if str_eq k key then v else get key rest

module _ {N : Type 0} (floats : Floats N) where
  -- `str(value)`
  unfoldable pub show : Value N → String
  show null = "None"
  show (boolean true) = "True"
  show (boolean false) = "False"
  show (number n) = floats.show_number n
  show (string s) = s
  show (array s) = s
  show (object fs) = floats.show_object fs

  -- `bool(value)`, which `or` tests.
  unfoldable pub truthy : Value N → Bool
  truthy null = false
  truthy (boolean b) = b
  truthy (number n) = not (floats.eq n floats.nought)
  truthy (string s) = not (str_eq s "")
  truthy (array s) = not (str_eq s "[]")
  truthy (object end) = false
  truthy (object (field k v rest)) = true

  -- `a or b`
  unfoldable pub or_else : Value N → Value N → Value N
  unfolding truthy
  or_else a b = if truthy a then a else b
