-- ===== src/Nodes/Tests.antt =====
-- Three nodes: a full one, an inactive one, and two with room.
use iotaps.Common.{ℕ, ◌≤◌, ◌≡◌, refl, Bool, true, false, some, [], ◌∷◌, arith}
use iotaps.Nodes.Assign.{
  MqttNode, Table, has_room, available, insert_by_load, order_by_load, candidates, connect, claim,
  rowcount, claim_first, assign_node,
}
use iotaps.Nodes.Capacity.{IsBounded, assign_node-IsBounded}
use iotaps.Nodes.LeastLoaded.{count_id}

abbrev node : ℕ → Bool → ℕ → MqttNode
node id active connections = record {
  id = id;
  active = active;
  active_connections = connections;
  capacity = 10;
}

abbrev nodes : Table
nodes = node 1 true 10 ∷ node 2 false 0 ∷ node 3 true 7 ∷ node 4 true 4 ∷ []

nodes-IsBounded : IsBounded nodes
nodes-IsBounded = (omega arith, (omega arith, (omega arith, (omega arith, tt))))

-- Another session fills the node that is chosen first.
abbrev filling : MqttNode → Table → Table
filling n t = node 1 true 10 ∷ node 2 false 0 ∷ node 3 true 7 ∷ node 4 true 10 ∷ []

assign_node-IsBounded_example : IsBounded (assign_node filling nodes).1
assign_node-IsBounded_example =
    assign_node-IsBounded filling nodes
      (λ n t h. (omega arith, (omega arith, (omega arith, (omega arith, tt))))) nodes-IsBounded

-- The second candidate is taken then.
assign_second : (assign_node filling nodes).0 ≡ some 3
unfolding assign_node candidates available has_room order_by_load insert_by_load claim_first claim
    rowcount connect
assign_second = refl

nodes-key : (id : ℕ) → count_id id nodes ≤ 1
nodes-key id = ground arith
