-- ===== src/Drivers/Sdr/RtlSdr/Tests.antt =====
-- A radio through a few calls.
use aetherion_os.Base.{◌≡◌, refl, arith, some, List, [], ◌∷◌}
use aetherion_os.Drivers.Usb.Descriptor.{UsbDevice}
use aetherion_os.Drivers.Sdr.RtlSdr.{
  RtlSdr, new, init, get_frequency, tune, attach, set_sample_rate,
}
use aetherion_os.Drivers.Sdr.RtlSdr.Range.{
  IsTuned, Call, attaching, initing, tuning, rating, calls, InRange, calls-InRange, call,
}

abbrev stick : UsbDevice
stick = record {
  vendor_id = 0x0bda;
  product_id = 0x2838;
  device_class = 0;
  device_subclass = 0;
  protocol = 0;
  max_packet_size = 64;
  manufacturer = 1;
  product = 2;
  serial_number = 3;
}

abbrev radio : RtlSdr
radio = record {
  usb_device = some stick;
  frequency = 98500000;
  sample_rate = 2400000;
  gain = 0;
  buffer = [];
  transfers = [];
}

radio-IsTuned : IsTuned radio
radio-IsTuned = record {
  frequency_low = omega arith;
  frequency_high = omega arith;
  rate_low = omega arith;
  rate_high = omega arith;
}

abbrev session : List Call
session = attaching stick ∷ initing ∷ tuning 433920000 ∷ tuning 5 ∷ rating 1024000 ∷ []

calls-InRange_example : InRange (calls session new)
calls-InRange_example = calls-InRange session

tuned : get_frequency (calls session new) ≡ 433920000
unfolding calls call get_frequency tune attach init set_sample_rate new
tuned = refl
