-- ===== src/Proofs.antt =====
-- app/ports/proof.py, app/ports/bitcoin.py and the stores of proofs in app/db: the versions of the
-- proof of an order and the evidence kept for each.
pub mod Models
pub mod Equality
pub mod Rows
pub mod Store
pub mod Chain
pub mod Appending
pub mod Immutable
pub mod Repeating
pub mod Evidence
pub mod Observations
mod Tests
