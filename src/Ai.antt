-- ===== src/Ai.antt =====
-- src/routes/ai: the calls of Gemini that the service pays for.
pub mod Budget
