-- ===== src/Feedback.antt =====
-- src/collectmind/feedback: the verdict on a deployment whose collection window is over.
pub mod Evaluator
pub mod Worker
mod Examples
