-- ===== src/Tests.antt =====
-- The theorems at concrete inputs, and runs of the code on them.
mod Fixtures
mod PowRuns
mod PoolRuns
mod ValidatorRuns
mod SystemRuns
mod RoundRuns
mod WireRuns
mod ChainRuns
mod ControllerRuns
mod InterleavingRuns
mod ThreadRuns
mod LoggerRuns
mod TurnRuns
mod EndingRuns
mod BagRuns
mod GeneratorRuns
mod WholeRuns
