-- ===== src/Stress.antt =====
-- The stress program of concurrencylab-edit/stress.c.
pub mod Graph
pub mod Topology
pub mod Setup
pub mod Ring
pub mod Router
pub mod Node
