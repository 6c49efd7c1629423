-- ===== src/Pipeline.antt =====
-- src/lexicon_mcp/pipeline: how the corpus is split into packs.
pub mod Numbers
pub mod Plan
