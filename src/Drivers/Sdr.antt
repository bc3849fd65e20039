-- ===== src/Drivers/Sdr.antt =====
-- kernel/src/drivers/sdr: the radio, its filter and the demodulators.
pub mod RtlSdr
pub mod Filter
pub mod Demodulator
