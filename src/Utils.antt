-- ===== src/Utils.antt =====
-- internal/utils/reconcile.go: finalizers and the retry delay.
pub mod Finalizer
pub mod Hooked
pub mod Backoff
mod Tests
