-- ===== src/Tests.antt =====
-- The theorems at concrete inputs: a disk of two blocks on the host of Platform/Memory.
mod Fixture
mod Controller
mod Doorbells
mod Driver
mod Rings
mod Lifecycle
mod Recovered
mod Agreement
