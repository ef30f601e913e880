-- ===== src/Common/Rows.antt =====
-- Tables of the database as lists of rows: selecting, counting and finding by a test.
use Prim.Native.Nat.{ℕ, suc, ◌+◌, ◌≤◌}
use mathlib.Core.Path.{◌≡◌, refl}
use mathlib.Core.Bool.{Bool, true}
use mathlib.Core.Option.{Option, none, some}
use mathlib.Core.Logic.{inl, inr}
use mathlib.Core.List.{List, [], ◌∷◌, ◌++◌}
use native.Mathlib.Omega.{arith}
use iotaps.Common.Tests.{if◌then◌else◌, Bool-cases}
use iotaps.Common.Lists.{All}

module _ {ℓ} {A : Type ℓ} where
  -- The rows that pass a test.
  abbrev pub keep : (A → Bool) → List A → List A
  keep p [] = []
  keep p (x ∷ xs) = let rest = keep p xs in if p x then x ∷ rest else rest

  abbrev pub count_where : (A → Bool) → List A → ℕ
  count_where p [] = 0
  count_where p (x ∷ xs) = let rest = count_where p xs in if p x then suc rest else rest

  abbrev pub find_where : (A → Bool) → List A → Option A
  find_where p [] = none
  find_where p (x ∷ xs) = let rest = find_where p xs in if p x then some x else rest

  -- Each row that passes a test is changed.
  abbrev pub update_where : (A → Bool) → (A → A) → List A → List A
  update_where p f [] = []
  update_where p f (x ∷ xs) = (if p x then f x else x) ∷ update_where p f xs

  pub count-keep : (p q : A → Bool) (l : List A) → count_where p (keep q l) ≤ count_where p l
  count-keep p q [] = omega arith
  count-keep p q (x ∷ l) = ground (arith, count-keep p q l)

  pub count_where-append :
      (p : A → Bool) (l m : List A) → count_where p (l ++ m) ≡ count_where p l + count_where p m
  count_where-append p [] m = ground arith
  count_where-append p (x ∷ l) m = ground (arith, count_where-append p l m)

  pub All-keep {κ} : (P : A → Type κ) (q : A → Bool) (l : List A) → All P l → All P (keep q l)
  All-keep P q [] h = tt
  All-keep P q (x ∷ l) (h, k) = elim (Bool-cases (q x)) [
    | inl e ↦ rw e (h, All-keep P q l k)
    | inr e ↦ rw e (All-keep P q l k)
  ]

  -- What is kept passes the test.
  pub All-kept : (q : A → Bool) (l : List A) → All (λ x. q x ≡ true) (keep q l)
  All-kept q [] = tt
  All-kept q (x ∷ l) = elim (Bool-cases (q x)) [
    | inl e ↦ rw e (e, All-kept q l)
    | inr e ↦ rw e (All-kept q l)
  ]

  pub All-map {κ κ'} :
      (P : A → Type κ) (Q : A → Type κ') (l : List A) → ((x : A) → P x → Q x) → All P l → All Q l
  All-map P Q [] f h = tt
  All-map P Q (x ∷ l) f (h, k) = (f x h, All-map P Q l f k)

  -- A row that is found passes the test.
  pub find_where-some : (p : A → Bool) (l : List A) (x : A) → find_where p l ≡ some x → p x ≡ true
  find_where-some p [] x h = ground arith
  find_where-some p (y ∷ l) x h = ground (arith, h, find_where-some p l x)

  -- Two tables that pass the same rows through a test.
  pub keep-keep :
      (p q : A → Bool) (l : List A)
      → ((x : A) → p x ≡ true → q x ≡ true)
      → keep p (keep q l) ≡ keep p l
  keep-keep p q [] h = refl
  keep-keep p q (x ∷ l) h = ground (arith, keep-keep p q l h, h x)
