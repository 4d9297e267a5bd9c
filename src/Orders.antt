-- ===== src/Orders.antt =====
-- internal/orders: confirmations of prepared orders. Store has the in-memory confirmation store,
-- Service the confirm and cancel flows around it.
pub mod Store
pub mod Service
