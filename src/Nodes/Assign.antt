-- ===== src/Nodes/Assign.antt =====
-- `assign_node`. The candidates are read once; before each claim the other sessions may have changed
-- the table, which the parameter `meanwhile` says. Of equally loaded nodes the database may give any
-- first: here it is the one that stands first in the table.
use iotaps.Common.{
  ℕ, ◌+◌, Bool, ◌&&◌, Option, none, some, List, [], ◌∷◌, ltb, leb, ◌==◌, if◌then◌else◌,
}

pub record MqttNode : Type 0 where
  pub id : ℕ
  -- whether the status is "active"
  pub active : Bool
  pub active_connections : ℕ
  pub capacity : ℕ

abbrev pub Table : Type 0
Table = List MqttNode

unfoldable pub has_room : MqttNode → Bool
has_room n = ltb n.active_connections n.capacity

-- The rows of the `where` clause.
unfoldable pub available : Table → Table
available [] = []
available (n ∷ ns) = let rest = available ns in if n.active && has_room n then n ∷ rest else rest

-- `order_by(active_connections.asc())`
unfoldable pub insert_by_load : MqttNode → Table → Table
insert_by_load n [] = n ∷ []
insert_by_load n (m ∷ ms) =
    let rest = insert_by_load n ms in
    if leb n.active_connections m.active_connections then n ∷ m ∷ ms else m ∷ rest

unfoldable pub order_by_load : Table → Table
order_by_load [] = []
order_by_load (n ∷ ns) = insert_by_load n (order_by_load ns)

unfoldable pub candidates : Table → Table
candidates t = order_by_load (available t)

abbrev pub claims : ℕ → MqttNode → Bool
claims id n = n.id == id && has_room n

unfoldable pub connect : MqttNode → MqttNode
connect n = record n { active_connections = n.active_connections + 1 }

-- The guarded update: the table and how many rows it changed.
unfoldable pub claim : ℕ → Table → Table
claim id [] = []
claim id (n ∷ ns) = let rest = claim id ns in if claims id n then connect n ∷ rest else n ∷ rest

unfoldable pub rowcount : ℕ → Table → ℕ
rowcount id [] = 0
rowcount id (n ∷ ns) = let rest = rowcount id ns in if claims id n then 1 + rest else rest

-- The loop over the candidates; nothing where it raises `NoCapacityError`.
unfoldable pub claim_first : (MqttNode → Table → Table) → Table → Table → Option ℕ × Table
claim_first meanwhile [] t = (none, t)
claim_first meanwhile (n ∷ ns) t =
    let t' = meanwhile n t in
    let rest = claim_first meanwhile ns (claim n.id t') in
    if rowcount n.id t' == 1 then (some n.id, claim n.id t') else rest

unfoldable pub assign_node : (MqttNode → Table → Table) → Table → Option ℕ × Table
assign_node meanwhile t = claim_first meanwhile (candidates t) t
