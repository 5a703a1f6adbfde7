-- ===== src/Tests.antt =====
-- Runs of the model on concrete inputs, with floats counted in thousandths.
pub mod Fixture
pub mod DedupeRuns
pub mod WireRuns
pub mod BalancerRuns
pub mod ConsumersRuns
pub mod ReserveRuns
pub mod SteeringRuns
pub mod AnswersRuns
pub mod FiltersRuns
