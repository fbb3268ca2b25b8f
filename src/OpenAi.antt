-- ===== src/OpenAi.antt =====
-- The OpenAI adapter's translation: packages/openai/src/mapping.ts.
pub mod Mapping
pub mod Replies
mod Tests
