-- ===== src/Benchmark.antt =====
-- The benchmark clients: src/benchmarking.
pub mod Requests
pub mod Texts
pub mod Thread
pub mod Main
pub mod FileName
pub mod Processed
pub mod Report
pub mod Recorded
pub mod OneOp
pub mod Instance
pub mod EndToEnd
pub mod Fits
