-- ===== src/RuleStore/Writing.antt =====
-- What every graph that app/services/rule_service.py writes keeps, by its single rows.
use iotaps.Common.{
  ℕ, suc, ◌≡◌, refl, subst, Option, none, some, List, [], ◌∷◌, arith, Option-cases, inl, inr,
}
use iotaps.Common.Text.{Text}
use iotaps.Common.Exec.{Result, ok, err}
use iotaps.RuleStore.Tables.{
  Tables, NodeInput, EdgeInput, RuleError, Wiring, and_then, add_nodes, add_edge, add_edges,
  end_node, flush_graph, remember, or_empty,
}

-- What made a chain succeed.
and_then-ok :
    {A B : Type 0} (m : Result RuleError A) (f : A → Result RuleError B) (b : B)
    → and_then m f ≡ ok b
    → (a : A) × (m ≡ ok a) × (f a ≡ ok b)
and_then-ok (ok a) f b h = (a, refl, h)
and_then-ok (err e) f b h = cc

module _ {C : Type 0} where
  abbrev pub with_node : ℕ → ℕ → Text → C → Tables C → Tables C
  with_node org rule type content t = record t {
    nodes =
        (record {
          id = t.next_id;
          org_id = org;
          rule_id = rule;
          node_type = type;
          content = content;
        })
        ∷ t.nodes;
    next_id = suc t.next_id;
  }

  abbrev pub with_edge : ℕ → ℕ → ℕ → ℕ → Tables C → Tables C
  with_edge org rule a b t = record t {
    edges = (record { org_id = org; rule_id = rule; from_node_id = a; to_node_id = b }) ∷ t.edges;
  }

  add_edge-ok :
      (org rule : ℕ) (x y : Option ℕ) (t t' : Tables C)
      → add_edge org rule x y t ≡ ok t'
      → (a b : ℕ) × (x ≡ some a) × (y ≡ some b) × (with_edge org rule a b t ≡ t')
  unfolding add_edge
  add_edge-ok org rule (some a) (some b) t t' h = (a, b, refl, refl, ground (arith, h))
  add_edge-ok org rule (some a) none t t' h = cc
  add_edge-ok org rule none y t t' h = cc

  nothing_added :
      {w w' : Wiring} {t t' : Tables C}
      → ◌≡◌ {A = Result RuleError (Tables C × Wiring)} (ok (t, w)) (ok (t', w'))
      → (t ≡ t') × (w ≡ w')
  nothing_added h = (ground (arith, h), ground (arith, h))

  module _ (P : Wiring → Tables C → Type 0) (org rule : ℕ)
      (node : (w : Wiring) (t : Tables C) (key : Option Text) (type : Text) (content : C)
        → P w t
        → P (remember key t.next_id w) (with_node org rule type content t))
      (edge : (w : Wiring) (t : Tables C) (x y : Option Text) (a b : ℕ)
        → end_node w x ≡ some a
        → end_node w y ≡ some b
        → P w t
        → P w (with_edge org rule a b t)) where
    add_nodes-keeps :
        (l : List (NodeInput C)) (w w' : Wiring) (t t' : Tables C)
        → add_nodes org rule l t w ≡ ok (t', w')
        → P w t
        → P w' t'
    unfolding add_nodes
    add_nodes-keeps [] w w' t t' h p =
        let (e, e') = nothing_added h in subst (λ x. P x t') e' (subst (λ x. P w x) e p)
    add_nodes-keeps (n ∷ l) w w' t t' h p = elim (Option-cases n.node_type) [
      | inl e ↦ let h' = rw e at h in cc
      | inr (type, e) ↦
          let h' = rw e at h in
          add_nodes-keeps l (remember n.client_id t.next_id w) w'
            (with_node org rule type n.content t) t' h' (node w t n.client_id type n.content p)
    ]

    add_edges-keeps :
        (l : List EdgeInput) (w : Wiring) (t t' : Tables C)
        → add_edges org rule l w t ≡ ok t'
        → P w t
        → P w t'
    unfolding add_edges
    add_edges-keeps [] w t t' h p = let e : t ≡ t' = ground (arith, h) in subst (λ x. P w x) e p
    add_edges-keeps (e ∷ l) w t t' h p =
        let (t1, written, rest) = and_then-ok _ (λ x. add_edges org rule l w x) t' h in
        let (a, b, x, y, same) = add_edge-ok org rule _ _ t t1 written in
        add_edges-keeps l w t1 t' rest
          (subst (λ x. P w x) same (edge w t e.from_id e.to_id a b x y p))

    -- What holds of the tables with no keys, and is kept by each node and each edge that is added,
    -- holds of the tables with the keys of the graph's nodes.
    pub flush_graph-keeps :
        (nodes : Option (List (NodeInput C))) (edges : Option (List EdgeInput)) (t t' : Tables C)
        → flush_graph org rule nodes edges t ≡ ok t'
        → P [] t
        → (w : Wiring) × P w t'
    unfolding flush_graph
    flush_graph-keeps nodes edges t t' h p =
        let ((t1, w), written, rest) =
          and_then-ok (add_nodes org rule (or_empty nodes) t []) _ t' h in
        (
          w,
          add_edges-keeps (or_empty edges) w t1 t' rest
              (add_nodes-keeps (or_empty nodes) [] w t t1 written p),
        )
