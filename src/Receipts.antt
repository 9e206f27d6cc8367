-- ===== src/Receipts.antt =====
-- The receipts of attention calls, and what accepts them: `receipt` and `HistoryPolicy` of
-- sol_h3/interop.py, `_accept_partitioned_receipt` of sol_h3/partitioned_history.py, and the
-- publication in sol_h3/partitioned_request.py.
pub mod Ledger
pub mod Partitioned
pub mod Publish
pub mod Accepted
pub mod Runs
pub mod Routes
pub mod Mapped
pub mod MappedAccepted
pub mod History
pub mod Fallbacks
pub mod Examples
