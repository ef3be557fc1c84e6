-- ===== src/Provider.antt =====
-- agent/provider: the wrappers that make a provider resilient.
pub mod Retry
pub mod Fallback
pub mod Ollama
