-- ===== src/Registry.antt =====
-- crates/registry/src/components.rs. The rest of the registry, the decoding of the venue's
-- catalogue among it, is not modelled.
pub mod Components
pub mod Tests
