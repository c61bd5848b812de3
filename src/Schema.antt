-- ===== src/Schema.antt =====
-- The schema evolution of cognitive_runtime/schema_evolution/.
pub mod Graph
