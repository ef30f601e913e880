-- ===== src/Rules/Walk.antt =====
-- The chain that `build_chain` follows, against a relation of its own.
use iotaps.Common.{
  ℕ, zero, suc, ◌+◌, ◌≤◌, ◌<◌, ◌≡◌, refl, true, false, Option, none, some, List, [], ◌∷◌, arith,
  length, contains, if◌then◌else◌, Option-cases, Bool-cases, inl, inr, map, All, ap, ◌⊎◌,
}
use iotaps.Json.{Fields, Floats, show}
use iotaps.Rules.Chain.{
  NodeType, RawNode, RawEdge, RuleNodeSpec, find, assign, node_type_of, config_of, add_spec,
  collect_specs, collect_edges, first_trigger, walk, chain_from, build_chain,
}

-- How many stored nodes have not been visited: the measure of the loop.
abbrev unvisited : {A : Type 0} → List (ℕ × A) → List ℕ → ℕ
unvisited [] visited = 0
unvisited ((k, a) ∷ d) visited = (if contains k visited then 0 else 1) + unvisited d visited

unvisited_mono :
    {A : Type 0} (d : List (ℕ × A)) (c : ℕ) (visited : List ℕ)
    → unvisited d (c ∷ visited) ≤ unvisited d visited
unvisited_mono [] c visited = omega arith
unvisited_mono ((k, a) ∷ d) c visited = ground (arith, unvisited_mono d c visited)

unvisited_falls :
    {A : Type 0} (d : List (ℕ × A)) (c : ℕ) (visited : List ℕ) (s : A)
    → find c d ≡ some s
    → contains c visited ≡ false
    → unvisited d (c ∷ visited) < unvisited d visited
unfolding find
unvisited_falls [] c visited s h n = ground arith
unvisited_falls ((k, a) ∷ d) c visited s h n =
    ground (arith, unvisited_mono d c visited, unvisited_falls d c visited s)

unvisited-le-length :
    {A : Type 0} (d : List (ℕ × A)) (visited : List ℕ) → unvisited d visited ≤ length d
unvisited-le-length [] visited = omega arith
unvisited-le-length ((k, a) ∷ d) visited = ground (arith, unvisited-le-length d visited)

-- The `while` loop as a relation: from the visited ids and the current one, the nodes it appends.
pub data Follows {N : Type 0} (specs : List (ℕ × RuleNodeSpec N)) (adjacency : List (ℕ × ℕ))
    : List ℕ → Option ℕ → List (RuleNodeSpec N) → Type 0 where
  at_end : {visited : List ℕ} → Follows specs adjacency visited none []
  unknown :
      {visited : List ℕ} {c : ℕ} → find c specs ≡ none → Follows specs adjacency visited (some c) []
  seen :
      {visited : List ℕ} {c : ℕ}
      → contains c visited ≡ true
      → Follows specs adjacency visited (some c) []
  onward :
      {visited : List ℕ} {c : ℕ} {s : RuleNodeSpec N} {rest : List (RuleNodeSpec N)}
      → find c specs ≡ some s
      → contains c visited ≡ false
      → Follows specs adjacency (c ∷ visited) (find c adjacency) rest
      → Follows specs adjacency visited (some c) (s ∷ rest)

module _ {N : Type 0} (specs : List (ℕ × RuleNodeSpec N)) (adjacency : List (ℕ × ℕ)) where
  walk_unknown :
      (f c : ℕ) (visited : List ℕ)
      → find c specs ≡ none
      → walk (suc f) specs adjacency visited (some c) ≡ []
  unfolding walk
  walk_unknown f c visited h = ground arith

  walk_seen :
      (f c : ℕ) (s : RuleNodeSpec N) (visited : List ℕ)
      → find c specs ≡ some s
      → contains c visited ≡ true
      → walk (suc f) specs adjacency visited (some c) ≡ []
  unfolding walk
  walk_seen f c s visited h k = ground arith

  walk_onward :
      (f c : ℕ) (s : RuleNodeSpec N) (visited : List ℕ)
      → find c specs ≡ some s
      → contains c visited ≡ false
      → walk (suc f) specs adjacency visited (some c)
        ≡ s ∷ walk f specs adjacency (c ∷ visited) (find c adjacency)
  unfolding walk
  walk_onward f c s visited h k = ground arith

  -- With more fuel than unvisited nodes the loop runs to its own end.
  pub walk-Follows :
      (f : ℕ) (visited : List ℕ) (current : Option ℕ)
      → unvisited specs visited < f
      → Follows specs adjacency visited current (walk f specs adjacency visited current)
  walk-Follows zero visited current h = absurd (omega arith)
  walk-Follows (suc f) visited none h = unfold walk in at_end
  walk-Follows (suc f) visited (some c) h = elim (Option-cases (find c specs)) [
    | inl missing ↦ rw (walk_unknown f c visited missing) (unknown missing)
    | inr (s, found) ↦ elim (Bool-cases (contains c visited)) [
      | inl old ↦ rw (walk_seen f c s visited found old) (seen old)
      | inr new ↦ rw (walk_onward f c s visited found new) (
          onward found new (
            walk-Follows f (c ∷ visited) (find c adjacency)
              (omega (arith, unvisited_falls specs c visited s found new))))
    ]
  ]

-- Every stored node is under its own id.
abbrev pub IsKeyed : {N : Type 0} → List (ℕ × RuleNodeSpec N) → Type 0
IsKeyed specs = All (λ e. e.1.id ≡ e.0) specs

abbrev pub ids : {N : Type 0} → List (RuleNodeSpec N) → List ℕ
ids chain = map (λ s. s.id) chain

-- No id occurs twice.
abbrev pub IsDistinct : List ℕ → Type 0
IsDistinct [] = Unit
IsDistinct (a ∷ l) = (contains a l ≡ false) × IsDistinct l

-- Each id but the last has the next one as its first edge's target.
abbrev pub IsLinked : List (ℕ × ℕ) → List ℕ → Type 0
IsLinked adjacency [] = Unit
IsLinked adjacency (a ∷ []) = Unit
IsLinked adjacency (a ∷ b ∷ l) = (find a adjacency ≡ some b) × IsLinked adjacency (b ∷ l)

find-id :
    {N : Type 0} (specs : List (ℕ × RuleNodeSpec N)) (c : ℕ) (s : RuleNodeSpec N)
    → IsKeyed specs
    → find c specs ≡ some s
    → s.id ≡ c
unfolding find
find-id [] c s k h = ground arith
find-id ((j, t) ∷ specs) c s k h = ground (arith, find-id specs c s k.1)

module _ {N : Type 0} (specs : List (ℕ × RuleNodeSpec N)) (adjacency : List (ℕ × ℕ))
    (keyed : IsKeyed specs) where
  Follows-avoids :
      {visited : List ℕ} {current : Option ℕ} {chain : List (RuleNodeSpec N)}
      → Follows specs adjacency visited current chain
      → (a : ℕ) → contains a visited ≡ true
      → contains a (ids chain) ≡ false
  Follows-avoids at_end a h = refl
  Follows-avoids (unknown _) a h = refl
  Follows-avoids (seen _) a h = refl
  Follows-avoids {visited} (onward {c = c} {s = s} found new later) a h =
      ground (arith, find-id specs c s keyed found, Follows-avoids later a)

  Follows-IsDistinct :
      {visited : List ℕ} {current : Option ℕ} {chain : List (RuleNodeSpec N)}
      → Follows specs adjacency visited current chain
      → IsDistinct (ids chain)
  Follows-IsDistinct at_end = tt
  Follows-IsDistinct (unknown _) = tt
  Follows-IsDistinct (seen _) = tt
  Follows-IsDistinct (onward {c = c} {s = s} found new later) = (
    rw (find-id specs c s keyed found) (Follows-avoids later c (ground arith)),
    Follows-IsDistinct later,
  )

  -- A chain that is not empty begins with the current id.
  Follows-head :
      {visited : List ℕ} {current : Option ℕ} {chain : List (RuleNodeSpec N)}
      → Follows specs adjacency visited current chain
      → (ids chain ≡ []) ⊎ ((c : ℕ) × (l : List ℕ) × (ids chain ≡ c ∷ l) × (current ≡ some c))
  Follows-head at_end = inl refl
  Follows-head (unknown _) = inl refl
  Follows-head (seen _) = inl refl
  Follows-head (onward {c = c} {s = s} {rest = rest} found _ _) =
      inr (c, ids rest, ap (λ i. i ∷ ids rest) (find-id specs c s keyed found), refl)

  IsLinked-cons :
      (a : ℕ) (l : List ℕ)
      → (l ≡ []) ⊎ ((c : ℕ) × (m : List ℕ) × (l ≡ c ∷ m) × (find a adjacency ≡ some c))
      → IsLinked adjacency l
      → IsLinked adjacency (a ∷ l)
  IsLinked-cons a [] h k = tt
  IsLinked-cons a (b ∷ l) (inl e) k = absurd (cc)
  IsLinked-cons a (b ∷ l) (inr (c, m, e, f)) k = (ground arith, k)

  Follows-IsLinked :
      {visited : List ℕ} {current : Option ℕ} {chain : List (RuleNodeSpec N)}
      → Follows specs adjacency visited current chain
      → IsLinked adjacency (ids chain)
  Follows-IsLinked at_end = tt
  Follows-IsLinked (unknown _) = tt
  Follows-IsLinked (seen _) = tt
  Follows-IsLinked (onward {c = c} {s = s} {rest = rest} found _ later) =
      IsLinked-cons s.id (ids rest) (rw (find-id specs c s keyed found) (Follows-head later))
        (Follows-IsLinked later)

assign-IsKeyed :
    {N : Type 0} (s : RuleNodeSpec N) (specs : List (ℕ × RuleNodeSpec N))
    → IsKeyed specs
    → IsKeyed (assign s.id s specs)
unfolding assign
assign-IsKeyed s [] h = (refl, tt)
assign-IsKeyed s ((k, t) ∷ specs) h = ground (arith, assign-IsKeyed s specs h.1)

add_spec-IsKeyed :
    {N : Type 0} (floats : Floats N) (id : Option ℕ) (t : Option NodeType) (config : Fields N)
    (specs : List (ℕ × RuleNodeSpec N))
    → IsKeyed specs
    → IsKeyed (add_spec floats id t config specs)
unfolding add_spec
add_spec-IsKeyed floats (some id) (some t) config specs h =
    assign-IsKeyed (record { id = id; node_type = t; config = config }) specs h
add_spec-IsKeyed floats (some id) none config specs h = h
add_spec-IsKeyed floats none t config specs h = h

collect_specs-IsKeyed :
    {N : Type 0} (floats : Floats N) (specs : List (ℕ × RuleNodeSpec N)) (nodes : List (RawNode N))
    → IsKeyed specs
    → IsKeyed (collect_specs floats specs nodes)
unfolding collect_specs
collect_specs-IsKeyed floats specs [] h = h
collect_specs-IsKeyed floats specs (n ∷ nodes) h =
    let t : Option NodeType = node_type_of (show floats n.node_type) in
    collect_specs-IsKeyed floats (add_spec floats n.id t (config_of n.config) specs) nodes
      (add_spec-IsKeyed floats n.id t (config_of n.config) specs h)

-- What `build_chain` returns for a trigger: the nodes that the loop appends from the trigger on,
-- run to its own end, with no node twice, each after one that has an edge to it.
abbrev pub IsChainFrom :
    {N : Type 0}
    → List (ℕ × RuleNodeSpec N)
    → List (ℕ × ℕ)
    → Option (RuleNodeSpec N)
    → List (RuleNodeSpec N)
    → Type 0
IsChainFrom specs adjacency none chain = chain ≡ []
IsChainFrom specs adjacency (some t) chain =
    Follows specs adjacency [] (some t.id) chain
    × IsDistinct (ids chain)
    × IsLinked adjacency (ids chain)

chain_from-IsChainFrom :
    {N : Type 0} (specs : List (ℕ × RuleNodeSpec N)) (adjacency : List (ℕ × ℕ))
    (t : Option (RuleNodeSpec N))
    → IsKeyed specs
    → IsChainFrom specs adjacency t (chain_from specs adjacency t)
unfolding chain_from
chain_from-IsChainFrom specs adjacency none k = refl
chain_from-IsChainFrom specs adjacency (some t) k =
    let run : Follows specs adjacency [] (some t.id) (chain_from specs adjacency (some t)) =
      walk-Follows specs adjacency (suc (length specs)) [] (some t.id)
        (omega (arith, unvisited-le-length specs [])) in
    (run, Follows-IsDistinct specs adjacency k run, Follows-IsLinked specs adjacency k run)

-- Whatever the graph, cyclic or not, the loop of `build_chain` ends by itself: with no trigger the
-- chain is empty, and otherwise it follows the first edges from the first trigger until there is
-- none, its target is unknown or visited, and it visits no node twice.
pub build_chain-IsChainFrom :
    {N : Type 0} (floats : Floats N) (nodes : List (RawNode N)) (edges : List RawEdge)
    → let specs = collect_specs floats [] nodes in
      IsChainFrom specs
        (collect_edges [] edges)
        (first_trigger specs)
        (build_chain floats nodes edges)
unfolding build_chain
build_chain-IsChainFrom floats nodes edges =
    let specs = collect_specs floats [] nodes in
    chain_from-IsChainFrom specs (collect_edges [] edges) (first_trigger specs)
      (collect_specs-IsKeyed floats [] nodes tt)
