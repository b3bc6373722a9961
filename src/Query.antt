-- ===== src/Query.antt =====
-- The query engine of QEQuery.c, which kextfind uses to parse and evaluate the predicates of its
-- command line.
pub mod Data
pub mod Stack
pub mod Args
pub mod Evaluate
pub mod Denote
pub mod Append
pub mod Grammar
pub mod Runs
pub mod Close
pub mod After
pub mod Reads
pub mod Meaning
pub mod RoundTrip
pub mod Invariant
pub mod Accepts
mod Tests
