-- ===== src/RuleStore/Limit.antt =====
-- The limit of active rules of app/services/rule_service.py over any calls. Calls come one after
-- another here; the service does not lock between its count and its commit.
use iotaps.Common.{
  ℕ, suc, ◌+◌, ◌≤◌, ◌<◌, ◌≡◌, refl, ap, ◌∙◌, String, Bool, true, false, not, ◌&&◌, Option, none,
  some, List, [], ◌∷◌, ◌==◌, arith, inl, inr, Bool-cases, All,
}
use iotaps.Common.Rows.{count_where, find_where, update_where, All-map}
use iotaps.Common.Exec.{ok}
use iotaps.Plans.Limits.{plan_active_rule_limit}
use iotaps.RuleStore.Tables.{Rule, Tables, NodeInput, EdgeInput, flush_graph}
use iotaps.RuleStore.Writing.{flush_graph-keeps}
use iotaps.RuleStore.Service.{
  is_active_in, count_active_rules, enforce_active_limit, RulePatch, patched, turns_on,
}

abbrev bit : Bool → ℕ
bit true = 1
bit false = 0

abbrev pub has_id : ℕ → Rule → Bool
has_id k r = r.id == k

-- Where no row has the id, a change by the id changes nothing.
update_absent :
    (k : ℕ) (f : Rule → Rule) (l : List Rule)
    → count_where (has_id k) l ≡ 0
    → update_where (has_id k) f l ≡ l
update_absent k f [] h = refl
update_absent k f (x ∷ l) h = ground (arith, update_absent k f l)

-- How a change of the row with an id moves a count.
count-update :
    (p : Rule → Bool) (k : ℕ) (f : Rule → Rule) (l : List Rule) (r : Rule)
    → find_where (has_id k) l ≡ some r
    → count_where (has_id k) l ≤ 1
    → count_where p (update_where (has_id k) f l) + bit (p r) ≡ count_where p l + bit (p (f r))
count-update p k f [] r found once = ground arith
count-update p k f (x ∷ l) r found once =
    ground (arith, update_absent k f l, count-update p k f l r)

others_absent :
    (p : Rule → Bool) (k : ℕ) (l : List Rule)
    → count_where (has_id k) l ≡ 0
    → count_where (λ x. p x && not (has_id k x)) l ≡ count_where p l
others_absent p k [] h = refl
others_absent p k (x ∷ l) h = ground (arith, others_absent p k l)

-- The count without the row of an id.
count-others :
    (p : Rule → Bool) (k : ℕ) (l : List Rule) (r : Rule)
    → find_where (has_id k) l ≡ some r
    → count_where (has_id k) l ≤ 1
    → count_where (λ x. p x && not (has_id k x)) l + bit (p r) ≡ count_where p l
count-others p k [] r found once = ground arith
count-others p k (x ∷ l) r found once = ground (arith, others_absent p k l, count-others p k l r)

-- Every rule has an id below the next one.
abbrev pub AreBelow : ℕ → List Rule → Type 0
AreBelow n l = All (λ r. r.id < n) l

none_above : (n : ℕ) (l : List Rule) → AreBelow n l → count_where (has_id n) l ≡ 0
none_above n [] h = refl
none_above n (r ∷ l) (h, k) = ground (arith, none_above n l k)

update-AreBelow :
    {C : Type 0} (n k : ℕ) (patch : RulePatch C) (l : List Rule)
    → AreBelow n l
    → AreBelow n (update_where (has_id k) (patched patch) l)
unfolding patched
update-AreBelow n k patch [] h = tt
update-AreBelow n k patch (r ∷ l) (h, rest) = (ground (arith, h), update-AreBelow n k patch l rest)

update-has_id :
    {C : Type 0} (j k : ℕ) (patch : RulePatch C) (l : List Rule)
    → count_where (has_id j) (update_where (has_id k) (patched patch) l) ≡ count_where (has_id j) l
unfolding patched
update-has_id j k patch [] = refl
update-has_id j k patch (r ∷ l) = ground (arith, update-has_id j k patch l)

enforced :
    (org limit : ℕ) (plan : Option String) (exclude : Option ℕ) (l : List Rule)
    → plan_active_rule_limit plan ≡ some limit
    → enforce_active_limit org plan exclude l ≡ true
    → count_active_rules org exclude l < limit
unfolding enforce_active_limit
enforced org limit plan exclude l h e = ground (arith, h, e)

-- No organization has more active rules than its plan allows.
abbrev pub IsWithin : (ℕ → Option String) → List Rule → Type 0
IsWithin plan_of rules =
    (org limit : ℕ)
    → plan_active_rule_limit (plan_of org) ≡ some limit
    → count_where (is_active_in org) rules ≤ limit

module _ {C : Type 0} (plan_of : ℕ → Option String) where
  -- The ids are of one rule each, the next one is new, and the limits hold.
  abbrev pub IsLimited : Tables C → Type 0
  IsLimited t =
      AreBelow t.next_id t.rules
      × ((k : ℕ) → count_where (has_id k) t.rules ≤ 1)
      × IsWithin plan_of t.rules

  pub flush_graph-IsLimited :
      (org rule : ℕ) (nodes : Option (List (NodeInput C))) (edges : Option (List EdgeInput))
      (t t' : Tables C)
      → flush_graph org rule nodes edges t ≡ ok t'
      → IsLimited t
      → IsLimited t'
  flush_graph-IsLimited org rule nodes edges t t' h p =
      let (w, q) =
        flush_graph-keeps (λ w x. IsLimited x) org rule
          (λ w x key type content (below, once, within). (
            All-map {0, 0, 0} (λ r. r.id < x.next_id) (λ r. r.id < suc x.next_id) x.rules
                (λ r lt. omega arith) below,
            once,
            within,
          ))
          (λ w x a b from to e e' q. q) nodes edges t t' h p in
      q

  pub with_rule-IsLimited :
      (r : Rule) (t : Tables C)
      → r.id ≡ t.next_id
      → (r.enabled ≡ true → enforce_active_limit r.org_id (plan_of r.org_id) none t.rules ≡ true)
      → IsLimited t
      → IsLimited (record t { rules = r ∷ t.rules; next_id = suc t.next_id })
  with_rule-IsLimited r t new checked (below, once, within) = (
    (
      omega arith,
      All-map {0, 0, 0} (λ x. x.id < t.next_id) (λ x. x.id < suc t.next_id) t.rules
          (λ x lt. omega arith) below,
    ),
    λ k. ground (arith, once k, none_above t.next_id t.rules below, new),
    λ org limit h. elim (Bool-cases (is_active_in org r)) [
      | inl active ↦
          let e : r.org_id ≡ org = ground (arith, active) in
          let h' : plan_active_rule_limit (plan_of r.org_id) ≡ some limit =
            ap (λ o. plan_active_rule_limit (plan_of o)) e ∙ h in
          let less =
            enforced r.org_id limit (plan_of r.org_id) none t.rules h'
              (checked (ground (arith, active))) in
          let less' : count_where (is_active_in r.org_id) t.rules < limit =
            (unfold count_active_rules in less) in
          let same = ap (λ o. count_where (is_active_in o) t.rules) e in
          ground (arith, active, less', same)
      | inr inactive ↦ ground (arith, inactive, within org limit h)
    ],
  )

  turned_on :
      (org : ℕ) (patch : RulePatch C) (r : Rule)
      → turns_on patch r ≡ true
      → (bit (is_active_in org r) ≡ 0) × (bit (is_active_in org (patched patch r)) ≤ 1)
  unfolding turns_on patched
  turned_on org patch r h = (ground (arith, h), ground (arith, h))

  not_turned_on :
      (org : ℕ) (patch : RulePatch C) (r : Rule)
      → turns_on patch r ≡ false
      → bit (is_active_in org (patched patch r)) ≤ bit (is_active_in org r)
  unfolding turns_on patched
  not_turned_on org patch r h = ground (arith, h)

  other_org :
      (org : ℕ) (patch : RulePatch C) (r : Rule)
      → (r.org_id == org) ≡ false
      → bit (is_active_in org (patched patch r)) ≡ 0
  unfolding patched
  other_org org patch r h = ground (arith, h)

  pub patched-IsLimited :
      (patch : RulePatch C) (r : Rule) (t : Tables C)
      → find_where (has_id r.id) t.rules ≡ some r
      → (turns_on patch r ≡ true
          → enforce_active_limit r.org_id (plan_of r.org_id) (some r.id) t.rules ≡ true)
      → IsLimited t
      → IsLimited (record t { rules = update_where (has_id r.id) (patched patch) t.rules })
  patched-IsLimited patch r t found checked (below, once, within) = (
    update-AreBelow t.next_id r.id patch t.rules below,
    λ k. ground (arith, once k, update-has_id k r.id patch t.rules),
    λ org limit h.
        let moved =
          count-update (is_active_in org) r.id (patched patch) t.rules r found (once r.id) in
        elim (Bool-cases (turns_on patch r)) [
          | inr off ↦ ground (arith, moved, not_turned_on org patch r off, within org limit h)
          | inl on ↦ elim (Bool-cases (r.org_id == org)) [
            | inr other ↦ ground (arith, moved, other_org org patch r other, within org limit h)
            | inl own ↦
                let e : r.org_id ≡ org = ground (arith, own) in
                let h' : plan_active_rule_limit (plan_of r.org_id) ≡ some limit =
                  ap (λ o. plan_active_rule_limit (plan_of o)) e ∙ h in
                let less =
                  enforced r.org_id limit (plan_of r.org_id) (some r.id) t.rules h' (checked on) in
                let less' : count_where (λ x. is_active_in r.org_id x && not (has_id r.id x))
                      t.rules
                    < limit =
                  (unfold count_active_rules in less) in
                let others =
                  count-others (is_active_in r.org_id) r.id t.rules r found (once r.id) in
                let same = ap (λ o. count_where (is_active_in o) t.rules) e in
                let (was, is) = turned_on org patch r on in
                let (was', is') = turned_on r.org_id patch r on in
                omega (arith, moved, less', others, same, was, is, was')
          ]
        ],
  )
