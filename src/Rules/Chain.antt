-- ===== src/Rules/Chain.antt =====
-- A rule's graph and the linear chain in it: `NodeType`, `_coerce_node_type` and `build_chain`.
-- Node ids are only compared, so they are numbers.
use iotaps.Common.{
  ℕ, zero, suc, String, Bool, true, false, Option, none, some, List, [], ◌∷◌, length, contains,
  ◌==◌, if◌then◌else◌,
}
use iotaps.Common.Text.{is_word}
use iotaps.Json.{Value, object, Fields, end, Floats, show}

pub data NodeType : Type 0 where
  trigger condition delay action : NodeType

-- A node as stored, and an edge as stored; any part may be missing.
pub record RawNode (N : Type 0) : Type 0 where
  pub id : Option ℕ
  pub node_type : Value N
  pub config : Value N

pub record RawEdge : Type 0 where
  pub from : Option ℕ
  pub to : Option ℕ

pub record RuleNodeSpec (N : Type 0) : Type 0 where
  pub id : ℕ
  pub node_type : NodeType
  pub config : Fields N

unfoldable pub node_type_of : String → Option NodeType
unfolding is_word
node_type_of s =
    if is_word s "trigger"
    then some trigger
    else if is_word s "condition"
    then some condition
    else if is_word s "delay"
    then some delay
    else if is_word s "action"
    then some action
    else none

-- A configuration that is no object counts as empty.
unfoldable pub config_of : {N : Type 0} → Value N → Fields N
config_of (object fs) = fs
config_of _ = end

-- A dict keyed by node ids, in insertion order: an overwrite keeps the key's place.
module _ {A : Type 0} where
  unfoldable pub find : ℕ → List (ℕ × A) → Option A
  find k [] = none
  find k ((j, a) ∷ d) = if j == k then some a else find k d

  unfoldable pub assign : ℕ → A → List (ℕ × A) → List (ℕ × A)
  assign k a [] = (k, a) ∷ []
  assign k a ((j, b) ∷ d) = if j == k then (k, a) ∷ d else (j, b) ∷ assign k a d

  -- `setdefault`
  unfoldable pub assign_default : ℕ → A → List (ℕ × A) → List (ℕ × A)
  assign_default k a [] = (k, a) ∷ []
  assign_default k a ((j, b) ∷ d) = if j == k then (j, b) ∷ d else (j, b) ∷ assign_default k a d

module _ {N : Type 0} (floats : Floats N) where
  unfoldable pub add_spec :
      Option ℕ → Option NodeType → Fields N → List (ℕ × RuleNodeSpec N) → List (ℕ × RuleNodeSpec N)
  unfolding assign
  add_spec (some id) (some t) config specs =
      assign id (record { id = id; node_type = t; config = config }) specs
  add_spec _ _ config specs = specs

  unfoldable pub collect_specs :
      List (ℕ × RuleNodeSpec N) → List (RawNode N) → List (ℕ × RuleNodeSpec N)
  unfolding add_spec node_type_of config_of show
  collect_specs specs [] = specs
  collect_specs specs (n ∷ nodes) =
      collect_specs
        (add_spec n.id (node_type_of (show floats n.node_type)) (config_of n.config) specs) nodes

unfoldable pub add_edge : Option ℕ → Option ℕ → List (ℕ × ℕ) → List (ℕ × ℕ)
unfolding assign_default
add_edge (some a) (some b) adjacency = assign_default a b adjacency
add_edge _ _ adjacency = adjacency

unfoldable pub collect_edges : List (ℕ × ℕ) → List RawEdge → List (ℕ × ℕ)
unfolding add_edge
collect_edges adjacency [] = adjacency
collect_edges adjacency (e ∷ edges) = collect_edges (add_edge e.from e.to adjacency) edges

abbrev is_trigger : NodeType → Bool
is_trigger trigger = true
is_trigger _ = false

module _ {N : Type 0} where
  -- The first trigger in insertion order.
  unfoldable pub first_trigger : List (ℕ × RuleNodeSpec N) → Option (RuleNodeSpec N)
  first_trigger [] = none
  first_trigger ((k, s) ∷ specs) = if is_trigger s.node_type then some s else first_trigger specs

  -- The `while` loop that follows the edges, with fuel.
  unfoldable pub walk :
      ℕ → List (ℕ × RuleNodeSpec N) → List (ℕ × ℕ) → List ℕ → Option ℕ → List (RuleNodeSpec N)
  unfolding find
  walk zero specs adjacency visited current = []
  walk (suc fuel) specs adjacency visited none = []
  walk (suc fuel) specs adjacency visited (some c) = elim (find c specs) [
    | none ↦ []
    | some s ↦ elim (contains c visited) [
      | true ↦ []
      | false ↦ s ∷ walk fuel specs adjacency (c ∷ visited) (find c adjacency)
    ]
  ]

  unfoldable pub chain_from :
      List (ℕ × RuleNodeSpec N) → List (ℕ × ℕ) → Option (RuleNodeSpec N) → List (RuleNodeSpec N)
  unfolding walk
  chain_from specs adjacency none = []
  chain_from specs adjacency (some t) = walk (suc (length specs)) specs adjacency [] (some t.id)

module _ {N : Type 0} (floats : Floats N) where
  unfoldable pub build_chain : List (RawNode N) → List RawEdge → List (RuleNodeSpec N)
  unfolding collect_specs collect_edges first_trigger chain_from
  build_chain nodes edges =
      let specs = collect_specs floats [] nodes in
      chain_from specs (collect_edges [] edges) (first_trigger specs)
