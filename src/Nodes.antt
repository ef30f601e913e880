-- ===== src/Nodes.antt =====
-- The assignment of new connections to MQTT nodes: app/services/node_assignment.py.
pub mod Assign
pub mod Capacity
pub mod LeastLoaded
mod Tests
