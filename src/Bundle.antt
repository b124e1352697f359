-- ===== src/Bundle.antt =====
-- bee-bundle: transactions, their fields, and bundles of them. A field of trits is the list of its
-- trits, a `Hash` too.
pub mod Transaction
pub mod Builder
pub mod Incoming
pub mod FromTrits
pub mod Diff
pub mod Outgoing
pub mod IntoTrits
pub mod Samples
mod Tests
