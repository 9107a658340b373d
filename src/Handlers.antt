-- ===== src/Handlers.antt =====
-- pkg/cni/handler.go: HandleAdd, HandleDel, HandleCheck and HandleGC, with the production defaults of
-- the functions that tests inject, as cmd/grout-cni/main.go leaves them; and what the handlers do.
pub mod Common
pub mod Add
pub mod Del
pub mod Check
pub mod Gc
pub mod Locking
pub mod Rollback
pub mod Deletion
pub mod Attaching
pub mod Granting
pub mod Checking
pub mod Staleness
pub mod Reaping
