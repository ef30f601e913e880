-- ===== src/RuleStore/Tables.antt =====
-- The rows behind app/services/rule_service.py, and the writing and removing of a rule's graph. The
-- configuration and position of a node, which the service only stores, are of any type. A new row gets
-- the next number as its id.
use iotaps.Common.{ℕ, suc, Bool, not, Option, none, some, List, [], ◌∷◌, ◌==◌, if◌then◌else◌}
use iotaps.Common.Text.{Text, same_codes}
use iotaps.Common.Rows.{keep}
use iotaps.Common.Exec.{Result, ok, err}

pub record Rule : Type 0 where
  pub id : ℕ
  pub org_id : ℕ
  pub name : Text
  pub enabled : Bool
  pub template_id : Option ℕ

pub record RuleNode (C : Type 0) : Type 0 where
  pub id : ℕ
  pub org_id : ℕ
  pub rule_id : ℕ
  pub node_type : Text
  pub content : C

pub record RuleEdge : Type 0 where
  pub org_id : ℕ
  pub rule_id : ℕ
  pub from_node_id : ℕ
  pub to_node_id : ℕ

pub record Tables (C : Type 0) : Type 0 where
  pub rules : List Rule
  pub nodes : List (RuleNode C)
  pub edges : List RuleEdge
  pub next_id : ℕ

-- What a request gives for a node and for an edge. Missing keys are `none`.
pub record NodeInput (C : Type 0) : Type 0 where
  pub client_id : Option Text
  pub node_type : Option Text
  pub content : C

pub record EdgeInput : Type 0 where
  pub from_id : Option Text
  pub to_id : Option Text

pub data RuleError : Type 0 where
  invalid_rule_name invalid_rule_graph plan_limit_exceeded not_authorized : RuleError

-- `client_to_db`, the newest entry first.
abbrev pub Wiring : Type 0
Wiring = List (Text × ℕ)

unfoldable pub lookup : Text → Wiring → Option ℕ
lookup key [] = none
lookup key ((k, id) ∷ rest) = if same_codes key k then some id else lookup key rest

-- The node of an edge's end; an empty key is none.
unfoldable pub end_node : Wiring → Option Text → Option ℕ
end_node w none = none
end_node w (some []) = none
end_node w (some (c ∷ key)) = lookup (c ∷ key) w

abbrev pub remember : Option Text → ℕ → Wiring → Wiring
remember none id w = w
remember (some key) id w = (key, id) ∷ w

abbrev pub and_then :
    {A B : Type 0} → Result RuleError A → (A → Result RuleError B) → Result RuleError B
and_then (ok a) f = f a
and_then (err e) f = err e

abbrev pub or_empty : {A : Type 0} → Option (List A) → List A
or_empty none = []
or_empty (some l) = l

module _ {C : Type 0} where
  -- The loop over the nodes, which gives the tables and the ids of the nodes.
  unfoldable pub add_nodes :
      ℕ → ℕ → List (NodeInput C) → Tables C → Wiring → Result RuleError (Tables C × Wiring)
  add_nodes org rule [] t w = ok (t, w)
  add_nodes org rule (n ∷ rest) t w = elim n.node_type [
    | none ↦ err invalid_rule_graph
    | some type ↦
        add_nodes org rule rest
          (record t {
            nodes =
                (record {
                  id = t.next_id;
                  org_id = org;
                  rule_id = rule;
                  node_type = type;
                  content = n.content;
                })
                ∷ t.nodes;
            next_id = suc t.next_id;
          })
          (remember n.client_id t.next_id w)
  ]

  unfoldable pub add_edge : ℕ → ℕ → Option ℕ → Option ℕ → Tables C → Result RuleError (Tables C)
  add_edge org rule (some a) (some b) t = ok (record t {
    edges = (record { org_id = org; rule_id = rule; from_node_id = a; to_node_id = b }) ∷ t.edges;
  })
  add_edge org rule (some a) none t = err invalid_rule_graph
  add_edge org rule none b t = err invalid_rule_graph

  unfoldable pub add_edges :
      ℕ → ℕ → List EdgeInput → Wiring → Tables C → Result RuleError (Tables C)
  add_edges org rule [] w t = ok t
  add_edges org rule (e ∷ rest) w t =
      and_then (add_edge org rule (end_node w e.from_id) (end_node w e.to_id) t)
        (λ t'. add_edges org rule rest w t')

  -- `_flush_graph`
  unfoldable pub flush_graph :
      ℕ
      → ℕ
      → Option (List (NodeInput C))
      → Option (List EdgeInput)
      → Tables C
      → Result RuleError (Tables C)
  flush_graph org rule nodes edges t =
      and_then (add_nodes org rule (or_empty nodes) t [])
        (λ (tables, w). add_edges org rule (or_empty edges) w tables)

  -- `_delete_graph`
  unfoldable pub delete_graph : ℕ → Tables C → Tables C
  delete_graph rule t = record t {
    nodes = keep (λ n. not (n.rule_id == rule)) t.nodes;
    edges = keep (λ e. not (e.rule_id == rule)) t.edges;
  }
