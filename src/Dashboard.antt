-- ===== src/Dashboard.antt =====
-- The pure logic of the dashboard (dashboard/src/app.py): lifecycle totals, health, batches, load
-- tests, bursts and uploads. Its pages and its queries of Prometheus are not modelled.
pub mod Lifecycle
pub mod Batches
pub mod LoadTest
pub mod Verdicts
pub mod Classification
pub mod Console
pub mod Performance
mod Tests
