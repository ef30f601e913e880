-- ===== src/Common/TextStore.antt =====
-- A key-value store whose keys are texts.
use mathlib.Core.Path.{◌≡◌, refl}
use mathlib.Core.Bool.{false}
use mathlib.Core.Option.{Option, none, some}
use native.Mathlib.Omega.{arith}
use iotaps.Common.Tests.{if◌then◌else◌}
use iotaps.Common.Text.{Text, same_codes, same_codes_refl}

abbrev pub TextStore {ℓ} : Type ℓ → Type ℓ
TextStore V = Text → Option V

module _ {ℓ} {V : Type ℓ} where
  -- `SET key value`
  unfoldable pub put_text : Text → V → TextStore V → TextStore V
  put_text k v s j = if same_codes j k then some v else s j

  -- `DEL key`
  unfoldable pub remove_text : Text → TextStore V → TextStore V
  remove_text k s j = if same_codes j k then none else s j

  pub put_text_self : (k : Text) (v : V) (s : TextStore V) → put_text k v s k ≡ some v
  unfolding put_text
  put_text_self k v s = rw (same_codes_refl k) refl

  pub put_text_other :
      (j k : Text) (v : V) (s : TextStore V) → same_codes j k ≡ false → put_text k v s j ≡ s j
  unfolding put_text
  put_text_other j k v s h = rw h refl

  pub remove_text_self : (k : Text) (s : TextStore V) → remove_text k s k ≡ none
  unfolding remove_text
  remove_text_self k s = rw (same_codes_refl k) refl

  -- A deletion brings nothing back.
  pub remove_text-none : (j k : Text) (s : TextStore V) → s j ≡ none → remove_text k s j ≡ none
  unfolding remove_text
  remove_text-none j k s h = ground (arith, h)
