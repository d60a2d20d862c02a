-- ===== src/Tests.antt =====
-- Examples: surroundings that answer, and the theorems applied to them.
mod Fixture
mod ScalingTests
mod ClientTests
mod WorkloadTests
mod ControllerTests
mod RefinementTests
mod RunTests
mod SettledTests
mod FleetTests
mod CmdTests
mod LifeTests
