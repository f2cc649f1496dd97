-- ===== src/Scoring.antt =====
-- The evidence-bound score of vcops.py: the rubric, the criteria, the adjustments and the decision.
pub mod Rounding
pub mod Rubric
pub mod Intervals
pub mod Sound
pub mod Reviewed
pub mod Evidence
pub mod Criteria
pub mod Context
pub mod Score
pub mod Bounded
pub mod Scored
pub mod Range
pub mod Gates
