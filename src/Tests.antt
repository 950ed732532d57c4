-- ===== src/Tests.antt =====
-- The theorems at concrete inputs.
mod Fixture
mod Table
mod Requests
mod Sessions
mod Transports
mod Benchmark
mod Machines
mod Clients
mod Collision
mod TcpClient
mod Workers
