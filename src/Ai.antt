-- ===== src/Ai.antt =====
-- app/ai: the generative layer. What the model returned is an argument, and so are the tables of
-- Unicode that Python's patterns read and the texts that Python prints for values that are not
-- texts.
pub mod Json
pub mod Patterns
pub mod Guard
pub mod Explain
pub mod Answer
pub mod Suggest
