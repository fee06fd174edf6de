-- ===== src/Llm.antt =====
-- libs/llm/src: the clients of the language model, its prompts, and the texts used in its place.
pub mod Prompts
pub mod Fallbacks
pub mod Clients
