-- ===== src/Usb.antt =====
-- components/usb-host-comp: the USB host wrappers.
pub mod Wire
pub mod Descriptors
pub mod Msc
pub mod Disk
pub mod Acm
pub mod Host
mod Tests
