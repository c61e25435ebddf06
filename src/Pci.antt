-- ===== src/Pci.antt =====
-- crates/visor-vmm/src/transport/pci.rs and pci_bus.rs: a PCI function that wraps a virtio device, and the
-- bus that routes port I/O to it.
pub mod Device
pub mod Config
pub mod Bars
pub mod Fresh
pub mod Msix
pub mod Bus
mod Tests
