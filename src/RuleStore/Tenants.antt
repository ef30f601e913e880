-- ===== src/RuleStore/Tenants.antt =====
-- What the calls of app/services/rule_service.py leave of the rules of other organizations.
use iotaps.Common.{
  ℕ, ◌<◌, ◌≡◌, ◌≢◌, refl, ◌∙◌, subst, String, false, not, Option, some, List, [], ◌∷◌, ◌==◌, arith,
  inl, inr, Bool-cases,
}
use iotaps.Common.Rows.{keep, find_where, update_where, keep-keep}
use iotaps.Common.Exec.{ok}
use iotaps.Command.Service.{TenantScope}
use iotaps.RuleStore.Tables.{
  Rule, RuleNode, RuleEdge, Tables, NodeInput, EdgeInput, flush_graph, delete_graph,
}
use iotaps.RuleStore.Writing.{flush_graph-keeps}
use iotaps.RuleStore.Limit.{has_id, AreBelow}
use iotaps.RuleStore.LimitKept.{scope_of, IsOrdinary}
use iotaps.RuleStore.Outcomes.{
  owned_rule-found, create_rule-ok, update_rule-ok, delete_rule-ok, replace_graph-ok,
  committed_keeps,
}
use iotaps.RuleStore.Service.{
  RulePatch, patched, delete_owned, Call, create, update, delete, call, owned_rule,
}

find-update :
    {C : Type 0} (j k : ℕ) (patch : RulePatch C) (l : List Rule)
    → (k == j) ≡ false
    → find_where (has_id j) (update_where (has_id k) (patched patch) l) ≡ find_where (has_id j) l
unfolding patched
find-update j k patch [] h = refl
find-update j k patch (r ∷ l) h = ground (arith, h, find-update j k patch l h)

find-keep :
    (j k : ℕ) (l : List Rule)
    → (k == j) ≡ false
    → find_where (has_id j) (keep (λ r. not (r.id == k)) l) ≡ find_where (has_id j) l
find-keep j k [] h = refl
find-keep j k (r ∷ l) h = ground (arith, h, find-keep j k l h)

find_below :
    (k n : ℕ) (l : List Rule) (r : Rule) → AreBelow n l → find_where (has_id k) l ≡ some r → k < n
find_below k n [] r below h = cc
find_below k n (x ∷ l) r (lt, below) h = ground (arith, lt, h, find_below k n l r below)

-- A caller who is no super admin owns no rule of another organization.
not_owned :
    (k : ℕ) (scope : TenantScope) (id : ℕ) (rules : List Rule) (row r : Rule)
    → scope.bypass ≡ false
    → find_where (has_id k) rules ≡ some row
    → row.org_id ≢ scope.org_id
    → owned_rule scope id rules ≡ some r
    → (r.id == k) ≡ false
not_owned k scope id rules row r ordinary found foreign owned =
    let (found', same, owns) = owned_rule-found scope id rules r owned in
    elim (Bool-cases (r.id == k)) [
      | inr other ↦ other
      | inl own ↦
          let e : id ≡ k = ground (arith, own, same) in
          let found'' : find_where (has_id k) rules ≡ some r =
            subst (λ i. find_where (has_id i) rules ≡ some r) e found' in
          absurd (foreign (ground (arith, found, found'', owns, ordinary)))
    ]

module _ {C : Type 0} (k : ℕ) where
  -- The row, the nodes and the edges of the rule are these.
  abbrev pub HasRule : Option Rule → List (RuleNode C) → List RuleEdge → Tables C → Type 0
  HasRule row nodes edges t =
      (find_where (has_id k) t.rules ≡ row)
      × (keep (λ n. n.rule_id == k) t.nodes ≡ nodes)
      × (keep (λ e. e.rule_id == k) t.edges ≡ edges)

  module _ (row : Option Rule) (nodes : List (RuleNode C)) (edges : List RuleEdge) where
    flush_graph-HasRule :
        (org rule : ℕ) (ns : Option (List (NodeInput C))) (es : Option (List EdgeInput))
        (t t' : Tables C)
        → (rule == k) ≡ false
        → flush_graph org rule ns es t ≡ ok t'
        → HasRule row nodes edges t
        → HasRule row nodes edges t'
    flush_graph-HasRule org rule ns es t t' other h p =
        (flush_graph-keeps (λ w x. HasRule row nodes edges x) org rule
          (λ w x key type content (a, b, c). (a, ground (arith, other, b), c))
          (λ w x from to a b e e' (f, g, i). (f, g, ground (arith, other, i))) ns es t t' h p).1

    delete_graph-HasRule :
        (rule : ℕ) (t : Tables C)
        → (rule == k) ≡ false
        → HasRule row nodes edges t
        → HasRule row nodes edges (delete_graph rule t)
    unfolding delete_graph
    delete_graph-HasRule rule t other (a, b, c) = (
      a,
      keep-keep (λ n. n.rule_id == k) (λ n. not (n.rule_id == rule)) t.nodes
            (λ n e. ground (arith, other, e))
          ∙ b,
      keep-keep (λ e. e.rule_id == k) (λ e. not (e.rule_id == rule)) t.edges
            (λ n e. ground (arith, other, e))
          ∙ c,
    )

  module _ (plan_of : ℕ → Option String) where
    -- No call of a caller who is no super admin changes the row, the nodes or the edges of a rule of
    -- another organization, where every rule's id is below the next one.
    pub call_leaves_foreign :
        (c : Call C) (row : Rule) (t : Tables C)
        → IsOrdinary c
        → AreBelow t.next_id t.rules
        → find_where (has_id k) t.rules ≡ some row
        → row.org_id ≢ (scope_of c).org_id
        → HasRule
            (some row)
            (keep (λ n. n.rule_id == k) t.nodes)
            (keep (λ e. e.rule_id == k) t.edges)
            (call plan_of c t)
    unfolding call delete_owned delete_graph
    call_leaves_foreign (create scope new) row t ordinary below found foreign =
        let lt = find_below k t.next_id t.rules row below found in
        let other : (t.next_id == k) ≡ false = ground (arith, lt) in
        committed_keeps (λ x. HasRule (some row) _ _ x) t _
          (λ t' h.
            flush_graph-HasRule (some row) _ _ scope.org_id t.next_id new.nodes new.edges _ t' other
              (create_rule-ok plan_of scope new t t' h).1
              (ground (arith, other, found), refl, refl))
          (found, refl, refl)
    call_leaves_foreign (update scope id patch) row t ordinary below found foreign =
        let ns = keep (λ n. n.rule_id == k) t.nodes in
        let es = keep (λ e. e.rule_id == k) t.edges in
        committed_keeps (λ x. HasRule (some row) ns es x) t _
          (λ t' h.
            let (r, owned, room, written) = update_rule-ok plan_of scope id patch t t' h in
            let t1 : Tables C = record t {
              rules = update_where (has_id r.id) (patched patch) t.rules;
            } in
            let other = not_owned k scope id t.rules row r ordinary found foreign owned in
            let same = find-update k r.id patch t.rules other in
            elim (replace_graph-ok scope patch r.id _ t' written) [
              | inr e ↦ subst (λ x. HasRule (some row) ns es x) e (same ∙ found, refl, refl)
              | inl flushed ↦
                  flush_graph-HasRule (some row) ns es scope.org_id r.id patch.nodes patch.edges _
                    t' other flushed
                    (delete_graph-HasRule (some row) ns es r.id t1 other (same ∙ found, refl, refl))
            ])
          (found, refl, refl)
    call_leaves_foreign (delete scope id) row t ordinary below found foreign =
        let ns = keep (λ n. n.rule_id == k) t.nodes in
        let es = keep (λ e. e.rule_id == k) t.edges in
        committed_keeps (λ x. HasRule (some row) ns es x) t _
          (λ t' h.
            let (r, owned, done) = delete_rule-ok scope id t t' h in
            let other = not_owned k scope id t.rules row r ordinary found foreign owned in
            let (a, b, c) =
              delete_graph-HasRule (some row) ns es r.id t other (found, refl, refl) in
            subst (λ x. HasRule (some row) ns es x) done
              (find-keep k r.id t.rules other ∙ found, b, c))
          (found, refl, refl)
