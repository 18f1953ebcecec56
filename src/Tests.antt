-- ===== src/Tests.antt =====
-- Runs of the definitions, and the theorems at concrete inputs.
mod Sample
mod WireTests
mod BaseTests
mod ServerTests
mod ClientTests
mod ConnectionTests
mod SystemTests
mod SetupTests
mod LoopTests
mod LogTests
mod WorkTests
mod PublicationTests
mod TimedTests
mod LifecycleTests
mod AsyncCallsTests
