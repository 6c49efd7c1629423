-- ===== src/Service.antt =====
-- src/lexicon_mcp/runtime/service.py: the parts of the tool handlers that do not ask a database.
pub mod Allocate
pub mod Rows
pub mod Diverse
pub mod Weave
pub mod Rank
pub mod Frontier
pub mod Transitive
pub mod Arguments
pub mod Relations
