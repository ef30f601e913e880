-- ===== src/Nodes/LeastLoaded.antt =====
-- Which node an undisturbed assignment takes.
use iotaps.Common.{
  ℕ, ◌+◌, ◌≤◌, ◌<◌, ◌≡◌, refl, sym, subst, true, ◌&&◌, Option, none, some, [], ◌∷◌, arith, leb,
  ◌==◌, ==_refl, if◌then◌else◌, Bool-cases, inl, inr, All,
}
use iotaps.Nodes.Assign.{
  MqttNode, Table, has_room, available, insert_by_load, order_by_load, candidates, claim, rowcount,
  claim_first, assign_node,
}

-- How many rows have an id; a primary key allows at most one.
abbrev pub count_id : ℕ → Table → ℕ
count_id id [] = 0
count_id id (n ∷ ns) = (if n.id == id then 1 else 0) + count_id id ns

rowcount_most : (id : ℕ) (t : Table) → rowcount id t ≤ count_id id t
unfolding rowcount
rowcount_most id [] = omega arith
rowcount_most id (n ∷ ns) = ground (arith, rowcount_most id ns)

All-map : {P Q : MqttNode → Type 0} → ((n : MqttNode) → P n → Q n) → (t : Table) → All P t → All Q t
All-map f [] h = tt
All-map f (n ∷ ns) (p, h) = (f n p, All-map f ns h)

rowcount_grows :
    (id : ℕ) (n : MqttNode) (ns : Table) → 0 < rowcount id ns → 0 < rowcount id (n ∷ ns)
unfolding rowcount
rowcount_grows id n ns h = ground arith

rowcount_own : (n : MqttNode) (ns : Table) → has_room n ≡ true → 0 < rowcount n.id (n ∷ ns)
unfolding rowcount
rowcount_own n ns h = ground (arith, ==_refl n.id)

-- Every available node can be claimed.
available_claimed : (t : Table) → All (λ n. 0 < rowcount n.id t) (available t)
unfolding available
available_claimed [] = tt
available_claimed (n ∷ ns) =
    let rest : All (λ m. 0 < rowcount m.id (n ∷ ns)) (available ns) =
      All-map (λ m p. rowcount_grows m.id n ns p) (available ns) (available_claimed ns) in
    elim (Bool-cases (n.active && has_room n)) [
      | inl free ↦
          (let room : has_room n ≡ true = ground arith in rw free (rowcount_own n ns room, rest))
      | inr shut ↦ (rw shut rest)
    ]

All-insert :
    (P : MqttNode → Type 0) (n : MqttNode) (t : Table) → P n → All P t → All P (insert_by_load n t)
unfolding insert_by_load
All-insert P n [] p h = (p, tt)
All-insert P n (m ∷ ms) p (q, h) =
    elim (Bool-cases (leb n.active_connections m.active_connections)) [
      | inl le ↦ (rw le (p, (q, h)))
      | inr gt ↦ (rw gt (q, All-insert P n ms p h))
    ]

All-order : (P : MqttNode → Type 0) (t : Table) → All P t → All P (order_by_load t)
unfolding order_by_load
All-order P [] h = tt
All-order P (n ∷ ns) (p, h) = All-insert P n (order_by_load ns) p (All-order P ns h)

-- The first of a table, if any, is no more loaded than the rest.
abbrev IsLeast : Table → Table → Type 0
IsLeast [] t = t ≡ []
IsLeast (n ∷ ns) t = All (λ m. n.active_connections ≤ m.active_connections) t

insert-IsLeast :
    (n : MqttNode) (sorted t : Table) → IsLeast sorted t → IsLeast (insert_by_load n sorted) (n ∷ t)
unfolding insert_by_load
insert-IsLeast n [] t h =
    (omega arith, subst (All (λ m. n.active_connections ≤ m.active_connections)) (sym h) tt)
insert-IsLeast n (m ∷ ms) t h = elim (Bool-cases (leb n.active_connections m.active_connections)) [
  | inl le ↦
      (let below : n.active_connections ≤ m.active_connections = ground arith in
        let all : All (λ k. n.active_connections ≤ k.active_connections) t =
          All-map (λ k p. omega (arith, below, p)) t h in
        rw le (omega arith, all))
  | inr gt ↦
      (let above : m.active_connections ≤ n.active_connections = ground arith in rw gt (above, h))
]

order-IsLeast : (t : Table) → IsLeast (order_by_load t) t
unfolding order_by_load
order-IsLeast [] = refl
order-IsLeast (n ∷ ns) = insert-IsLeast n (order_by_load ns) ns (order-IsLeast ns)

abbrev pub undisturbed : MqttNode → Table → Table
undisturbed n t = t

-- What an assignment gave: the first of the candidates claimed, or no candidate at all.
abbrev pub IsAssigned : Table → Option ℕ × Table → Type 0
IsAssigned t (none, t') = (available t ≡ []) × (t' ≡ t)
IsAssigned t (some id, t') =
    (n : MqttNode) × (n.id ≡ id)
    × All (λ m. n.active_connections ≤ m.active_connections) (available t)
    × (rowcount id t ≡ 1)
    × (t' ≡ claim id t)

claimed_first :
    (sorted t : Table)
    → IsLeast sorted (available t)
    → All (λ n. rowcount n.id t ≡ 1) sorted
    → IsAssigned t (claim_first undisturbed sorted t)
unfolding claim_first
claimed_first [] t h c = (h, refl)
claimed_first (n ∷ ns) t h (c, cs) = rw c (n, refl, h, c, refl)

-- Undisturbed, and with ids that are a primary key, an assignment fails only if no active node has
-- room, and then changes nothing; else it claims one row, of a node that no available node is less
-- loaded than.
pub assign_node-IsAssigned :
    (t : Table) → ((id : ℕ) → count_id id t ≤ 1) → IsAssigned t (assign_node undisturbed t)
unfolding assign_node candidates
assign_node-IsAssigned t key =
    claimed_first (order_by_load (available t)) t (order-IsLeast (available t)) (
      All-order (λ n. rowcount n.id t ≡ 1) (available t)
        (All-map (λ n p. omega (arith, p, rowcount_most n.id t, key n.id)) (available t)
          (available_claimed t)))
