-- ===== src/Nodes/Capacity.antt =====
-- The capacities of the nodes under assignments.
use iotaps.Common.{ℕ, ◌≤◌, [], ◌∷◌, arith, ◌==◌, Bool-cases, inl, inr, All}
use iotaps.Nodes.Assign.{
  MqttNode, Table, has_room, connect, claim, rowcount, claim_first, candidates, assign_node,
}

abbrev pub IsBounded : Table → Type 0
IsBounded t = All (λ n. n.active_connections ≤ n.capacity) t

claim-IsBounded : (id : ℕ) (t : Table) → IsBounded t → IsBounded (claim id t)
unfolding claim connect has_room
claim-IsBounded id [] h = tt
claim-IsBounded id (n ∷ ns) (hn, h) = ground (arith, claim-IsBounded id ns h)

claim_first-IsBounded :
    (meanwhile : MqttNode → Table → Table) (ns t : Table)
    → ((n : MqttNode) (t : Table) → IsBounded t → IsBounded (meanwhile n t))
    → IsBounded t
    → IsBounded (claim_first meanwhile ns t).1
unfolding claim_first
claim_first-IsBounded meanwhile [] t keeps h = h
claim_first-IsBounded meanwhile (n ∷ ns) t keeps h =
    let t' = meanwhile n t in
    let bounded = claim-IsBounded n.id t' (keeps n t h) in
    elim (Bool-cases (rowcount n.id t' == 1)) [
      | inl won ↦ (rw won bounded)
      | inr lost ↦ (rw lost (claim_first-IsBounded meanwhile ns (claim n.id t') keeps bounded))
    ]

-- Whatever the other sessions do between the claims, as long as they keep every node within its
-- capacity, an assignment keeps every node within its capacity, whether it finds a node or none.
pub assign_node-IsBounded :
    (meanwhile : MqttNode → Table → Table) (t : Table)
    → ((n : MqttNode) (t : Table) → IsBounded t → IsBounded (meanwhile n t))
    → IsBounded t
    → IsBounded (assign_node meanwhile t).1
unfolding assign_node
assign_node-IsBounded meanwhile t keeps h = claim_first-IsBounded meanwhile (candidates t) t keeps h
