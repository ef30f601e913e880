-- ===== src/RuleStore/Graphs.antt =====
-- The edges of the graphs that app/services/rule_service.py stores.
use iotaps.Common.{
  ℕ, ◌<◌, ◌≡◌, ◌≢◌, refl, subst, String, true, false, not, ◌&&◌, ◌||◌, Option, none, some, List, [],
  ◌∷◌, ◌==◌, arith, inl, inr, Bool-cases, All,
}
use iotaps.Common.Text.{Text}
use iotaps.Common.Rows.{keep, count_where, All-map}
use iotaps.Common.Exec.{ok, err, Result-cases}
use iotaps.Command.Service.{TenantScope}
use iotaps.RuleStore.Tables.{
  RuleNode, RuleEdge, Tables, NodeInput, EdgeInput, RuleError, Wiring, lookup, end_node, remember,
  add_nodes, add_edge, add_edges, flush_graph, delete_graph,
}
use iotaps.RuleStore.Writing.{flush_graph-keeps}
use iotaps.RuleStore.Outcomes.{
  create_rule-ok, update_rule-ok, delete_rule-ok, replace_graph-ok, committed_keeps,
}
use iotaps.RuleStore.Service.{
  RulePatch, replace_graph, update_rule, delete_owned, Call, create, update, delete, call, calls,
}

no_end : (end : Option Text) → end_node [] end ≡ none
unfolding end_node lookup
no_end none = refl
no_end (some []) = refl
no_end (some (c ∷ key)) = refl

module _ {C : Type 0} where
  -- Some stored node has this id and belongs to this rule.
  abbrev pub HasNode : ℕ → ℕ → List (RuleNode C) → Type 0
  HasNode id rule nodes = 0 < count_where (λ n. n.id == id && n.rule_id == rule) nodes

  abbrev pub EndsIn : List (RuleNode C) → RuleEdge → Type 0
  EndsIn nodes e = HasNode e.from_node_id e.rule_id nodes × HasNode e.to_node_id e.rule_id nodes

  -- Every edge joins two nodes of its own rule.
  abbrev pub IsWired : Tables C → Type 0
  IsWired t = All (EndsIn t.nodes) t.edges

  abbrev Knows : ℕ → List (RuleNode C) → Wiring → Type 0
  Knows rule nodes w = All (λ (entry : Text × ℕ). HasNode entry.1 rule nodes) w

  lookup-HasNode :
      (key : Text) (rule a : ℕ) (nodes : List (RuleNode C)) (w : Wiring)
      → lookup key w ≡ some a
      → Knows rule nodes w
      → HasNode a rule nodes
  unfolding lookup
  lookup-HasNode key rule a nodes [] h k = cc
  lookup-HasNode key rule a nodes ((name, id) ∷ w) h (known, rest) =
      ground (arith, h, known, lookup-HasNode key rule a nodes w)

  end_node-HasNode :
      (end : Option Text) (rule a : ℕ) (nodes : List (RuleNode C)) (w : Wiring)
      → end_node w end ≡ some a
      → Knows rule nodes w
      → HasNode a rule nodes
  unfolding end_node
  end_node-HasNode none rule a nodes w h k = cc
  end_node-HasNode (some []) rule a nodes w h k = cc
  end_node-HasNode (some (c ∷ key)) rule a nodes w h k = lookup-HasNode (c ∷ key) rule a nodes w h k

  more_nodes :
      (id rule : ℕ) (n : RuleNode C) (nodes : List (RuleNode C))
      → HasNode id rule nodes
      → HasNode id rule (n ∷ nodes)
  more_nodes id rule n nodes h = ground (arith, h)

  more-EndsIn :
      (n : RuleNode C) (nodes : List (RuleNode C)) (e : RuleEdge)
      → EndsIn nodes e
      → EndsIn (n ∷ nodes) e
  more-EndsIn n nodes e (a, b) =
      (more_nodes _ e.rule_id n nodes a, more_nodes _ e.rule_id n nodes b)

  more-Knows :
      (rule : ℕ) (n : RuleNode C) (nodes : List (RuleNode C)) (w : Wiring)
      → Knows rule nodes w
      → Knows rule (n ∷ nodes) w
  more-Knows rule n nodes w k =
      All-map {0, 0, 0} (λ (x : Text × ℕ). HasNode x.1 rule nodes)
        (λ (x : Text × ℕ). HasNode x.1 rule (n ∷ nodes)) w (λ x. more_nodes x.1 rule n nodes) k

  remember-Knows :
      (rule : ℕ) (key : Option Text) (n : RuleNode C) (nodes : List (RuleNode C)) (w : Wiring)
      → n.rule_id ≡ rule
      → Knows rule nodes w
      → Knows rule (n ∷ nodes) (remember key n.id w)
  remember-Knows rule none n nodes w own k = more-Knows rule n nodes w k
  remember-Knows rule (some name) n nodes w own k =
      (ground (arith, own), more-Knows rule n nodes w k)

  flush_graph-IsWired :
      (org rule : ℕ) (nodes : Option (List (NodeInput C))) (edges : Option (List EdgeInput))
      (t t' : Tables C)
      → flush_graph org rule nodes edges t ≡ ok t'
      → IsWired t
      → IsWired t'
  flush_graph-IsWired org rule nodes edges t t' h p =
      let (w, q) =
        flush_graph-keeps (λ w x. IsWired x × Knows rule x.nodes w) org rule
          (λ w x key type content (wired, knows).
            let n : RuleNode C = record {
              id = x.next_id;
              org_id = org;
              rule_id = rule;
              node_type = type;
              content = content;
            } in
            (
              All-map {0, 0, 0} (EndsIn x.nodes) (EndsIn (n ∷ x.nodes)) x.edges
                  (more-EndsIn n x.nodes) wired,
              remember-Knows rule key n x.nodes w refl knows,
            ))
          (λ w x from to a b e e' (wired, knows). (
            (
              (
                end_node-HasNode from rule a x.nodes w e knows,
                end_node-HasNode to rule b x.nodes w e' knows,
              ),
              wired,
            ),
            knows,
          ))
          nodes edges t t' h (p, tt) in
      q.0

  -- Removing a rule's nodes leaves those of another rule.
  other_nodes :
      (id rule gone : ℕ) (nodes : List (RuleNode C))
      → (rule == gone) ≡ false
      → HasNode id rule nodes
      → HasNode id rule (keep (λ n. not (n.rule_id == gone)) nodes)
  other_nodes id rule gone [] other h = h
  other_nodes id rule gone (n ∷ nodes) other h =
      ground (arith, other, h, other_nodes id rule gone nodes)

  delete_edges :
      (gone : ℕ) (nodes : List (RuleNode C)) (edges : List RuleEdge)
      → All (EndsIn nodes) edges
      → All
          (EndsIn (keep (λ n. not (n.rule_id == gone)) nodes))
          (keep (λ e. not (e.rule_id == gone)) edges)
  delete_edges gone nodes [] h = tt
  delete_edges gone nodes (e ∷ edges) ((a, b), rest) = elim (Bool-cases (e.rule_id == gone)) [
    | inl own ↦ rw own (delete_edges gone nodes edges rest)
    | inr other ↦ rw other (
      (
        other_nodes e.from_node_id e.rule_id gone nodes other a,
        other_nodes e.to_node_id e.rule_id gone nodes other b,
      ),
      delete_edges gone nodes edges rest,
    )
  ]

  delete_graph-IsWired : (id : ℕ) (t : Tables C) → IsWired t → IsWired (delete_graph id t)
  unfolding delete_graph
  delete_graph-IsWired id t p = delete_edges id t.nodes t.edges p

  replace_graph-IsWired :
      (scope : TenantScope) (patch : RulePatch C) (id : ℕ) (t t' : Tables C)
      → replace_graph scope patch id t ≡ ok t'
      → IsWired t
      → IsWired t'
  replace_graph-IsWired scope patch id t t' h p = elim (replace_graph-ok scope patch id t t' h) [
    | inl written ↦
        flush_graph-IsWired scope.org_id id patch.nodes patch.edges (delete_graph id t) t' written
          (delete_graph-IsWired id t p)
    | inr same ↦ subst (λ x. IsWired x) same p
  ]

  unwired_edges :
      (org rule : ℕ) (e : EdgeInput) (rest : List EdgeInput) (t t' : Tables C)
      → flush_graph org rule none (some (e ∷ rest)) t ≢ ok t'
  unfolding flush_graph add_nodes add_edges add_edge
  unwired_edges org rule e rest t t' h = let h' = rw (no_end e.from_id, add_edge) at h in cc

  unwired :
      (scope : TenantScope) (patch : RulePatch C) (id : ℕ) (e : EdgeInput) (rest : List EdgeInput)
      (t t' : Tables C)
      → patch.edges_set ≡ true
      → patch.nodes ≡ none
      → patch.edges ≡ some (e ∷ rest)
      → replace_graph scope patch id t ≢ ok t'
  unfolding replace_graph
  unwired scope patch id e rest t t' set nodes edges h =
      let sets : (patch.nodes_set || patch.edges_set) ≡ true = ground (arith, set) in
      let h' = rw (sets, nodes, edges) at h in
      unwired_edges scope.org_id id e rest (delete_graph id t) t' h'

  module _ (plan_of : ℕ → Option String) where
    call-IsWired : (c : Call C) (t : Tables C) → IsWired t → IsWired (call plan_of c t)
    unfolding call delete_owned
    call-IsWired (create scope new) t p =
        committed_keeps (λ x. IsWired x) t _
          (λ t' h.
            flush_graph-IsWired scope.org_id t.next_id new.nodes new.edges _ t'
              (create_rule-ok plan_of scope new t t' h).1 p)
          p
    call-IsWired (update scope id patch) t p =
        committed_keeps (λ x. IsWired x) t _
          (λ t' h.
            let (r, owned, room, written) = update_rule-ok plan_of scope id patch t t' h in
            replace_graph-IsWired scope patch r.id _ t' written p)
          p
    call-IsWired (delete scope id) t p =
        committed_keeps (λ x. IsWired x) t _
          (λ t' h.
            let (r, owned, same) = delete_rule-ok scope id t t' h in
            subst (λ x. IsWired x) same (delete_graph-IsWired r.id t p))
          p

    -- Whatever rules are created, changed and deleted, every stored edge joins two stored nodes of its
    -- own rule, if that was so before.
    pub calls-IsWired : (l : List (Call C)) (t : Tables C) → IsWired t → IsWired (calls plan_of l t)
    unfolding calls
    calls-IsWired [] t p = p
    calls-IsWired (c ∷ l) t p = calls-IsWired l (call plan_of c t) (call-IsWired c t p)

    -- A request that sets the edges of a rule and not its nodes, with at least one edge, never succeeds.
    pub edges_alone_refused :
        (scope : TenantScope) (id : ℕ) (patch : RulePatch C) (e : EdgeInput) (rest : List EdgeInput)
        (t : Tables C)
        → patch.edges_set ≡ true
        → patch.nodes ≡ none
        → patch.edges ≡ some (e ∷ rest)
        → (error : RuleError) × (update_rule plan_of scope id patch t ≡ err error)
    edges_alone_refused scope id patch e rest t set nodes edges =
        elim (Result-cases (update_rule plan_of scope id patch t)) [
          | inr refused ↦ refused
          | inl (t', h) ↦
              let (r, owned, room, written) = update_rule-ok plan_of scope id patch t t' h in
              absurd (unwired scope patch r.id e rest _ t' set nodes edges written)
        ]
