-- ===== src/RuleStore/Outcomes.antt =====
-- What the calls of app/services/rule_service.py that succeed have done.
use iotaps.Common.{
  ℕ, suc, ◌≡◌, refl, String, true, false, not, ◌&&◌, ◌||◌, Option, none, some, List, ◌∷◌, ◌==◌,
  arith, ◌⊎◌, inl, inr, Bool-cases, Option-cases,
}
use iotaps.Common.Text.{strip}
use iotaps.Common.Rows.{find_where, update_where, find_where-some}
use iotaps.Common.Exec.{Result, ok, err}
use iotaps.Command.Service.{TenantScope}
use iotaps.RuleStore.Tables.{Rule, Tables, RuleError, flush_graph, delete_graph}
use iotaps.RuleStore.Service.{
  enforce_active_limit, is_nil, is_nameless, owned_rule, NewRule, RulePatch, patched, turns_on,
  new_row, create_rule, replace_graph, update_owned, update_rule, delete_owned, delete_rule,
  committed,
}
use iotaps.RuleStore.Limit.{has_id}

-- A row that the caller owns is there, and of the caller's organization unless the caller is a super
-- admin.
pub owned_rule-found :
    (scope : TenantScope) (id : ℕ) (rules : List Rule) (r : Rule)
    → owned_rule scope id rules ≡ some r
    → (find_where (has_id id) rules ≡ some r)
      × (r.id ≡ id)
      × ((scope.bypass || r.org_id == scope.org_id) ≡ true)
unfolding owned_rule
owned_rule-found scope id rules r h = elim (Option-cases (find_where (has_id id) rules)) [
  | inl e ↦ let h' = rw (e, owned_rule) at h in cc
  | inr (x, e) ↦
      let h' = rw (e, owned_rule) at h in
      let found = find_where-some (has_id id) rules x e in
      (ground (arith, h', e), ground (arith, h', found), ground (arith, h'))
]

module _ {C : Type 0} (plan_of : ℕ → Option String) where
  pub create_rule-ok :
      (scope : TenantScope) (new : NewRule C) (t t' : Tables C)
      → create_rule plan_of scope new t ≡ ok t'
      → ((new.enabled
            && not (enforce_active_limit scope.org_id (plan_of scope.org_id) none t.rules))
          ≡ false)
        × (flush_graph scope.org_id t.next_id new.nodes new.edges
              (record t { rules = new_row scope new t.next_id ∷ t.rules; next_id = suc t.next_id })
            ≡ ok t')
  unfolding create_rule
  create_rule-ok scope new t t' h = elim (Bool-cases (is_nil (strip new.name))) [
    | inl nameless ↦ let h' = rw nameless at h in cc
    | inr named ↦
        let h1 = rw named at h in
        elim (Bool-cases (
          new.enabled
          && not (enforce_active_limit scope.org_id (plan_of scope.org_id) none t.rules))) [
            | inl full ↦ let h' = rw full at h1 in cc
            | inr room ↦ let h2 = rw room at h1 in (room, h2)
          ]
  ]

  update_owned-ok :
      (scope : TenantScope) (patch : RulePatch C) (r : Rule) (t t' : Tables C)
      → update_owned plan_of scope patch r t ≡ ok t'
      → ((turns_on patch r
            && not (enforce_active_limit scope.org_id (plan_of scope.org_id) (some r.id) t.rules))
          ≡ false)
        × (replace_graph scope patch r.id
              (record t { rules = update_where (has_id r.id) (patched patch) t.rules })
            ≡ ok t')
  unfolding update_owned
  update_owned-ok scope patch r t t' h =
      elim (Bool-cases (patch.name_set && is_nameless patch.name)) [
        | inl nameless ↦ let h' = rw nameless at h in cc
        | inr named ↦
            let h1 = rw named at h in
            elim (Bool-cases (
              turns_on patch r
              && not
                  (enforce_active_limit scope.org_id (plan_of scope.org_id) (some r.id) t.rules))) [
                    | inl full ↦ let h' = rw full at h1 in cc
                    | inr room ↦ let h2 = rw room at h1 in (room, h2)
                  ]
      ]

  pub update_rule-ok :
      (scope : TenantScope) (id : ℕ) (patch : RulePatch C) (t t' : Tables C)
      → update_rule plan_of scope id patch t ≡ ok t'
      → (r : Rule) × (owned_rule scope id t.rules ≡ some r)
        × ((turns_on patch r
              && not (enforce_active_limit scope.org_id (plan_of scope.org_id) (some r.id) t.rules))
            ≡ false)
        × (replace_graph scope patch r.id
              (record t { rules = update_where (has_id r.id) (patched patch) t.rules })
            ≡ ok t')
  unfolding update_rule
  update_rule-ok scope id patch t t' h = elim (Option-cases (owned_rule scope id t.rules)) [
    | inl e ↦ let h' = rw (e, update_rule) at h in cc
    | inr (r, e) ↦
        let h' = rw (e, update_rule) at h in
        let (room, done) = update_owned-ok scope patch r t t' h' in (r, e, room, done)
  ]

module _ {C : Type 0} where
  pub delete_rule-ok :
      (scope : TenantScope) (id : ℕ) (t t' : Tables C)
      → delete_rule scope id t ≡ ok t'
      → (r : Rule) × (owned_rule scope id t.rules ≡ some r) × (delete_owned r.id t ≡ t')
  unfolding delete_rule
  delete_rule-ok scope id t t' h = elim (Option-cases (owned_rule scope id t.rules)) [
    | inl e ↦ let h' = rw (e, delete_rule) at h in cc
    | inr (r, e) ↦ let h' = rw (e, delete_rule) at h in (r, e, ground (arith, h'))
  ]

  pub replace_graph-ok :
      (scope : TenantScope) (patch : RulePatch C) (id : ℕ) (t t' : Tables C)
      → replace_graph scope patch id t ≡ ok t'
      → (flush_graph scope.org_id id patch.nodes patch.edges (delete_graph id t) ≡ ok t') ⊎ (t ≡ t')
  unfolding replace_graph
  replace_graph-ok scope patch id t t' h = elim (Bool-cases (patch.nodes_set || patch.edges_set)) [
    | inl set ↦ let h' = rw set at h in inl h'
    | inr unset ↦ let h' = rw unset at h in inr (ground (arith, h'))
  ]

  -- What the tables satisfy after a call, if they do after every call that succeeds.
  pub committed_keeps :
      (P : Tables C → Type 0) (t : Tables C) (result : Result RuleError (Tables C))
      → ((t' : Tables C) → result ≡ ok t' → P t')
      → P t
      → P (committed t result)
  committed_keeps P t (ok t') f p = f t' refl
  committed_keeps P t (err e) f p = p
