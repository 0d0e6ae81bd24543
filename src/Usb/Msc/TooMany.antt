-- ===== src/Usb/Msc/TooMany.antt =====
-- The enumeration of a device with more units than the arrays have places.
use esp32sx_c_plus_wrappers.Usb.Msc.{Msc}
