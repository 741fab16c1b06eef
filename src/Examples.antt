-- ===== src/Examples.antt =====
-- The theorems at concrete inputs, with the doubles of `Binary64` and the child queue of `Fifo`.
pub mod Binary64
pub mod Fifo
pub mod Inputs
mod Controller
mod Discipline
mod Reports
mod Rounds
mod Parallel
pub mod Files
mod Memory
mod Loading
