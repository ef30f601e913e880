-- ===== src/RuleStore/LimitKept.antt =====
-- The operations of app/services/rule_service.py, one after another, and the limit of active rules.
-- The service does not lock between its count and its commit; calls that overlap are not considered.
use iotaps.Common.{
  ℕ, ◌<◌, ◌≡◌, refl, ap, ◌∙◌, subst, String, true, false, not, Option, some, List, [], ◌∷◌, ◌==◌,
  arith, inl, inr, All,
}
use iotaps.Common.Rows.{find_where, count-keep, All-keep}
use native.Mathlib.Nat.{le_trans}
use iotaps.Common.Exec.{ok}
use iotaps.Command.Service.{TenantScope}
use iotaps.RuleStore.Tables.{Tables, delete_graph}
use iotaps.RuleStore.Service.{
  is_active_in, enforce_active_limit, NewRule, RulePatch, new_row, create_rule, replace_graph,
  update_rule, delete_owned, delete_rule, Call, create, update, delete, call, calls,
}
use iotaps.RuleStore.Outcomes.{
  owned_rule-found, create_rule-ok, update_rule-ok, delete_rule-ok, replace_graph-ok,
  committed_keeps,
}
use iotaps.RuleStore.Limit.{
  has_id, IsLimited, flush_graph-IsLimited, with_rule-IsLimited, patched-IsLimited,
}

abbrev pub scope_of : {C : Type 0} → Call C → TenantScope
scope_of (create scope new) = scope
scope_of (update scope id patch) = scope
scope_of (delete scope id) = scope

-- A caller that is no super admin.
abbrev pub IsOrdinary : {C : Type 0} → Call C → Type 0
IsOrdinary c = (scope_of c).bypass ≡ false

module _ {C : Type 0} (plan_of : ℕ → Option String) where
  create_rule-IsLimited :
      (scope : TenantScope) (new : NewRule C) (t t' : Tables C)
      → create_rule plan_of scope new t ≡ ok t'
      → IsLimited plan_of t
      → IsLimited plan_of t'
  create_rule-IsLimited scope new t t' h p =
      let (room, written) = create_rule-ok plan_of scope new t t' h in
      flush_graph-IsLimited plan_of scope.org_id t.next_id new.nodes new.edges _ t' written (
        with_rule-IsLimited plan_of (new_row scope new t.next_id) t refl
          (λ on. ground (arith, room, on)) p)

  replace_graph-IsLimited :
      (scope : TenantScope) (patch : RulePatch C) (id : ℕ) (t t' : Tables C)
      → replace_graph scope patch id t ≡ ok t'
      → IsLimited plan_of t
      → IsLimited plan_of t'
  unfolding delete_graph
  replace_graph-IsLimited scope patch id t t' h p = elim (replace_graph-ok scope patch id t t' h) [
    | inl written ↦
        flush_graph-IsLimited plan_of scope.org_id id patch.nodes patch.edges (delete_graph id t) t'
          written p
    | inr same ↦ subst (λ x. IsLimited plan_of x) same p
  ]

  delete_owned-IsLimited :
      (id : ℕ) (t : Tables C) → IsLimited plan_of t → IsLimited plan_of (delete_owned id t)
  unfolding delete_owned delete_graph
  delete_owned-IsLimited id t (below, once, within) = (
    All-keep (λ r. r.id < t.next_id) (λ r. not (r.id == id)) t.rules below,
    λ k. le_trans (count-keep (has_id k) (λ r. not (r.id == id)) t.rules) (once k),
    λ org limit h.
        le_trans (count-keep (is_active_in org) (λ r. not (r.id == id)) t.rules)
          (within org limit h),
  )

  update_rule-IsLimited :
      (scope : TenantScope) (id : ℕ) (patch : RulePatch C) (t t' : Tables C)
      → scope.bypass ≡ false
      → update_rule plan_of scope id patch t ≡ ok t'
      → IsLimited plan_of t
      → IsLimited plan_of t'
  update_rule-IsLimited scope id patch t t' ordinary h p =
      let (r, e, room, written) = update_rule-ok plan_of scope id patch t t' h in
      let (found, same, owns) = owned_rule-found scope id t.rules r e in
      let found' : find_where (has_id r.id) t.rules ≡ some r =
        ap (λ i. find_where (has_id i) t.rules) same ∙ found in
      let own : scope.org_id ≡ r.org_id = ground (arith, owns, ordinary) in
      replace_graph-IsLimited scope patch r.id _ t' written (
        patched-IsLimited plan_of patch r t found'
          (λ on.
            subst (λ o. enforce_active_limit o (plan_of o) (some r.id) t.rules ≡ true) own
              (ground (arith, room, on)))
          p)

  delete_rule-IsLimited :
      (scope : TenantScope) (id : ℕ) (t t' : Tables C)
      → delete_rule scope id t ≡ ok t'
      → IsLimited plan_of t
      → IsLimited plan_of t'
  delete_rule-IsLimited scope id t t' h p =
      let (r, e, same) = delete_rule-ok scope id t t' h in
      subst (λ x. IsLimited plan_of x) same (delete_owned-IsLimited r.id t p)

  call-IsLimited :
      (c : Call C) (t : Tables C)
      → IsOrdinary c
      → IsLimited plan_of t
      → IsLimited plan_of (call plan_of c t)
  unfolding call
  call-IsLimited (create scope new) t o p =
      committed_keeps (λ x. IsLimited plan_of x) t _
        (λ t' h. create_rule-IsLimited scope new t t' h p) p
  call-IsLimited (update scope id patch) t o p =
      committed_keeps (λ x. IsLimited plan_of x) t _
        (λ t' h. update_rule-IsLimited scope id patch t t' o h p) p
  call-IsLimited (delete scope id) t o p =
      committed_keeps (λ x. IsLimited plan_of x) t _
        (λ t' h. delete_rule-IsLimited scope id t t' h p) p

  -- Whatever rules are created, changed and deleted by callers that are no super admins, one call
  -- after another and with the plans as they are, no organization has more active rules than its plan
  -- allows, the ids are of one rule each, and the next id is new, if it was so before.
  pub calls-IsLimited :
      (l : List (Call C)) (t : Tables C)
      → All IsOrdinary l
      → IsLimited plan_of t
      → IsLimited plan_of (calls plan_of l t)
  unfolding calls
  calls-IsLimited [] t o p = p
  calls-IsLimited (c ∷ l) t (o, os) p =
      calls-IsLimited l (call plan_of c t) os (call-IsLimited c t o p)
