-- ===== src/Dataset.antt =====
-- Declared datasets, of crates/chat/src/knowledge/dataset.
pub mod Grammar
pub mod Plan
pub mod Resolve
pub mod Compose
