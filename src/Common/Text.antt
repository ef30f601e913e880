-- ===== src/Common/Text.antt =====
-- Text as the program normalises it: `value.strip().lower()`, over Python's white space and the
-- ASCII letters.
use Prim.Native.Char.{code}
use Prim.Native.Nat.{ℕ, ◌+◌}
use Prim.Native.String.{String}
use mathlib.Core.Path.{◌≡◌, refl}
use mathlib.Core.Bool.{Bool, true, false, ◌&&◌, ◌||◌}
use mathlib.Core.List.{List, [], ◌∷◌, map}
use native.Mathlib.Omega.{arith}
use iotaps.Common.Tests.{leb, ◌==◌, if◌then◌else◌}

abbrev pub Text : Type 0
Text = List ℕ

-- The code points of a text.
abbrev pub codes : String → List ℕ
codes String.[] = []
codes (String.◌∷◌ c s) = code c ∷ codes s

-- `str.isspace` of one character.
abbrev is_space : ℕ → Bool
is_space c =
    leb 9 c && leb c 13
    || leb 28 c && leb c 32
    || c == 133
    || c == 160
    || c == 5760
    || leb 8192 c && leb c 8202
    || c == 8232
    || c == 8233
    || c == 8239
    || c == 8287
    || c == 12288

abbrev pub to_lower : ℕ → ℕ
to_lower c = if leb b'A' c && leb c b'Z' then c + 32 else c

abbrev lstrip : List ℕ → List ℕ
lstrip [] = []
lstrip (c ∷ s) = let rest = lstrip s in if is_space c then rest else c ∷ s

abbrev keep_unless_blank : ℕ → List ℕ → List ℕ
keep_unless_blank c [] = if is_space c then [] else c ∷ []
keep_unless_blank c (d ∷ s) = c ∷ d ∷ s

abbrev rstrip : List ℕ → List ℕ
rstrip [] = []
rstrip (c ∷ s) = keep_unless_blank c (rstrip s)

unfoldable pub strip : List ℕ → List ℕ
strip s = rstrip (lstrip s)

unfoldable pub normalize : String → List ℕ
unfolding strip
normalize s = map to_lower (strip (codes s))

abbrev pub same_codes : List ℕ → List ℕ → Bool
same_codes [] [] = true
same_codes (a ∷ s) (b ∷ t) = a == b && same_codes s t
same_codes _ _ = false

-- `value.strip().lower() == word`
unfoldable pub is_word : String → String → Bool
unfolding normalize
is_word s word = same_codes (normalize s) (codes word)

abbrev is_empty : List ℕ → Bool
is_empty [] = true
is_empty (c ∷ s) = false

-- `not value.strip()`
unfoldable pub is_blank : String → Bool
unfolding strip
is_blank s = is_empty (strip (codes s))

pub same_codes-eq : (s t : List ℕ) → same_codes s t ≡ true → s ≡ t
same_codes-eq [] [] h = refl
same_codes-eq [] (b ∷ t) h = ground arith
same_codes-eq (a ∷ s) [] h = ground arith
same_codes-eq (a ∷ s) (b ∷ t) h = ground (arith, same_codes-eq s t)

-- A text that reads as one word reads as any other exactly if the two words are spelled alike.
pub is_word-other :
    (p word other : String)
    → is_word p word ≡ true
    → is_word p other ≡ same_codes (codes word) (codes other)
unfolding is_word
is_word-other p word other h = rw (same_codes-eq (normalize p) (codes word) h)

pub same_codes_refl : (s : Text) → same_codes s s ≡ true
same_codes_refl [] = refl
same_codes_refl (c ∷ s) = ground (arith, same_codes_refl s)
