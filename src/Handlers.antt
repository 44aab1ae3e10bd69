-- ===== src/Handlers.antt =====
-- The handlers that fill a new device with its properties and attributes: create_net_handler of
-- udev-net.c, create_pci_handler of udev-pci.c, and those of udev-dev.c.
pub mod Entries
pub mod Hex
pub mod Pci
pub mod Net
pub mod Decimal
pub mod Strtol
pub mod Parent
pub mod Input
pub mod Drm
pub mod Create
