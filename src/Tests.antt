-- ===== src/Tests.antt =====
-- Concrete runs of the program's parts, and the theorems applied to them.
pub mod Data
pub mod CryptoRuns
pub mod RingRuns
pub mod EngineRuns
pub mod TlmRuns
pub mod GateRuns
pub mod SpecRuns
pub mod LoginRuns
pub mod OfferRuns
pub mod ReplayRuns
pub mod BarredRuns
pub mod SoftwareRuns
pub mod PoolRuns
pub mod VersionRuns
pub mod AvailabilityRuns
pub mod InterleavedRuns
pub mod CounterRuns
