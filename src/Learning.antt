-- ===== src/Learning.antt =====
-- What the model learns from: the evidence of choices (core/decisions).
pub mod Choice
pub mod ChoiceLaws
pub mod Complete
mod Tests
