-- ===== src/Topics/Wildcards.antt =====
-- What `topic_matches_filter` of app/core/mqtt_topics.py takes for a match, by the levels of the filter.
use iotaps.Common.{
  ◌≡◌, ◌↔◌, ◌⊎◌, inl, inr, refl, ap, true, false, List, [], ◌∷◌, ◌++◌, arith, Bool-cases,
}
use iotaps.Common.Text.{same_codes}
use iotaps.Topics.Topic.{Text, split, is_hash, is_plus, match_parts, topic_matches_filter}

-- A filter's level that is `+`, or the same text, stands for one level of the topic.
abbrev pub IsLevel : Text → Text → Type 0
IsLevel f t = (is_plus f ≡ true) ⊎ (same_codes f t ≡ true)

-- As many levels, each of which stands for the one at its place.
abbrev pub AreLevels : List Text → List Text → Type 0
AreLevels [] [] = Unit
AreLevels [] (t ∷ ts) = ⊥
AreLevels (f ∷ fs) [] = ⊥
AreLevels (f ∷ fs) (t ∷ ts) = IsLevel f t × AreLevels fs ts

-- Level by level, or up to a final `#`, which stands for all that is left, were it nothing.
abbrev pub Covers : List Text → List Text → Type 0
Covers fs ts =
    AreLevels fs ts
    ⊎ ((init before rest : List Text) × (hash : Text) × (fs ≡ init ++ hash ∷ [])
        × (is_hash hash ≡ true)
        × (ts ≡ before ++ rest)
        × AreLevels init before)

-- `#` is only the last level, as MQTT has it.
abbrev pub HashLast : List Text → Type 0
HashLast [] = Unit
HashLast (f ∷ []) = Unit
HashLast (f ∷ g ∷ fs) = (is_hash f ≡ false) × HashLast (g ∷ fs)

HashLast-tail : (f : Text) (fs : List Text) → HashLast (f ∷ fs) → HashLast fs
HashLast-tail f [] h = tt
HashLast-tail f (g ∷ fs) h = h.1

hash_ends : (f : Text) (fs : List Text) → HashLast (f ∷ fs) → is_hash f ≡ true → fs ≡ []
hash_ends f [] h e = refl
hash_ends f (g ∷ fs) h e = absurd (ground (arith, h.0, e))

Covers-level :
    (f t : Text) (fs ts : List Text) → IsLevel f t → Covers fs ts → Covers (f ∷ fs) (t ∷ ts)
Covers-level f t fs ts l (inl same) = inl (l, same)
Covers-level f t fs ts l (inr (init, before, rest, hash, e, h, e', levels)) =
    inr (f ∷ init, t ∷ before, rest, hash, ap (λ x. f ∷ x) e, h, ap (λ x. t ∷ x) e', (l, levels))

match-Covers : (fs ts : List Text) → HashLast fs → match_parts fs ts ≡ true → Covers fs ts
unfolding match_parts
match-Covers [] [] w h = inl tt
match-Covers [] (t ∷ ts) w h = absurd (ground arith)
match-Covers (f ∷ fs) [] w h =
    let e : fs ≡ [] = hash_ends f fs w h in inr ([], [], [], f, ap (λ x. f ∷ x) e, h, refl, tt)
match-Covers (f ∷ fs) (t ∷ ts) w h = elim (Bool-cases (is_hash f)) [
  | inl hash ↦ inr ([], [], t ∷ ts, f, ap (λ x. f ∷ x) (hash_ends f fs w hash), hash, refl, tt)
  | inr no_hash ↦
      (let more = match-Covers fs ts (HashLast-tail f fs w) (ground arith) in
        elim (Bool-cases (is_plus f)) [
          | inl plus ↦ Covers-level f t fs ts (inl plus) more
          | inr no_plus ↦ Covers-level f t fs ts (inr (ground arith)) more
        ])
]

matches_level :
    (f t : Text) (fs ts : List Text)
    → IsLevel f t
    → match_parts fs ts ≡ true
    → match_parts (f ∷ fs) (t ∷ ts) ≡ true
unfolding match_parts
matches_level f t fs ts (inl plus) h = ground arith
matches_level f t fs ts (inr same) h = ground arith

levels_match : (fs ts : List Text) → AreLevels fs ts → match_parts fs ts ≡ true
levels_match [] [] h = unfold match_parts in refl
levels_match [] (t ∷ ts) h = absurd h
levels_match (f ∷ fs) [] h = absurd h
levels_match (f ∷ fs) (t ∷ ts) (l, h) = matches_level f t fs ts l (levels_match fs ts h)

hash_matches :
    (init before rest : List Text) (hash : Text)
    → is_hash hash ≡ true
    → AreLevels init before
    → match_parts (init ++ hash ∷ []) (before ++ rest) ≡ true
hash_matches [] [] [] hash h levels = unfold match_parts in h
hash_matches [] [] (t ∷ rest) hash h levels = unfold match_parts in ground arith
hash_matches [] (t ∷ before) rest hash h levels = absurd levels
hash_matches (f ∷ init) [] rest hash h levels = absurd levels
hash_matches (f ∷ init) (t ∷ before) rest hash h (l, levels) =
    matches_level f t (init ++ hash ∷ []) (before ++ rest) l
      (hash_matches init before rest hash h levels)

covered_matches : (fs ts : List Text) → Covers fs ts → match_parts fs ts ≡ true
covered_matches fs ts (inl levels) = levels_match fs ts levels
covered_matches fs ts (inr (init, before, rest, hash, e, h, e', levels)) =
    rw (e, e') (hash_matches init before rest hash h levels)

-- A filter that has `#` as its last level at most matches a topic exactly if it covers it: level by
-- level, where `+` stands for any level, or up to its final `#`, which stands for whatever levels are
-- left, none included.
pub topic_matches_filter-Covers :
    (topic_filter t : Text)
    → HashLast (split topic_filter)
    → (topic_matches_filter topic_filter t ≡ true) ↔ Covers (split topic_filter) (split t)
unfolding topic_matches_filter
topic_matches_filter-Covers topic_filter t w =
    (match-Covers (split topic_filter) (split t) w, covered_matches (split topic_filter) (split t))
