-- ===== src/SearchEngine.antt =====
-- The search engine, search_engine/src/lib.rs. The database is a parameter of the queries, as the
-- rows of its tables, and so are the models that make embeddings.
pub mod Random
pub mod Lazy
pub mod Rows
pub mod Queries
pub mod Details
pub mod Embedding
mod Tests
