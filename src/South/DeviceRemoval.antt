-- ===== src/South/DeviceRemoval.antt =====
-- `device_del_monitor` of libsouth_interface/south.cpp against the list of the device's monitors.
