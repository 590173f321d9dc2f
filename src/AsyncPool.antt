-- ===== src/AsyncPool.antt =====
-- src/lib/asyncPool.ts: a list mapped by a bounded number of concurrent workers.
-- Machine holds the workers as a step relation, Invariant, Results and Progress the theorems.
pub mod Machine
pub mod Invariant
pub mod Results
pub mod Progress
