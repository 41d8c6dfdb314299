-- ===== src/Xml/Tests.antt =====
-- `upload` of libsouth_interface/southxml.cpp at fixed inputs.
use boring.Prelude.{
  ◌≡◌, refl, true, false, List, [], ◌∷◌, ◌++◌, none, some, ◌==◌, if◌then◌else◌, length, arith,
}
use boring.Prelude.Int.{pos}
use boring.Outcome.{ok, fault, uninitialised}
use boring.Memory.{deref}
use boring.Encode.{Conversions, ansi_to_utf8, ansi_to_unicode, unicode_to_utf8}
use boring.Text.ListSplit.{until_zero}
use boring.South.{Str, Target, Monitor, Device, Heap}
use boring.Xml.{Call}
use boring.Xml.Upload.{Uploader, upload}
use boring.Xml.Make.{monitor_to_string, monitor_make_xml}
use boring.Xml.Adding.{Converts}
use boring.South.Devices.{device_add_monitor}
use boring.South.DeviceList.{IsDevice}
use boring.Xml.Laws.{xml, handed, upload-handed}
use boring.Xml.Composition.{Items, nodes, monitors_of, add_monitor-upload}

-- Conversions that give one character back, whatever the text.
abbrev an_api : Conversions
an_api = record {
  bytes_needed = λ p s. 1;
  convert_bytes = λ p s n. b'x' ∷ [];
  wide_needed = λ p s. 1;
  convert_wide = λ p s n. b'x' ∷ [];
  allocates = λ n. true;
}

converts : Converts an_api (λ s. b'x' ∷ [])
unfolding ansi_to_utf8 ansi_to_unicode unicode_to_utf8 until_zero
converts last s = refl

abbrev a_target : Target
a_target = record {
  label = some (b'l' ∷ []);
  unit = none;
  type = pos 1;
  value = some (b'v' ∷ []);
  next = 0;
  pm = 2;
}

abbrev a_monitor : Monitor
a_monitor = record {
  stat = pos 0;
  label = some (b'm' ∷ []);
  target = 3;
  cru = 3;
  itarget = 1;
  next = 0;
  pd = some 1;
}

abbrev a_device : Device
a_device = record { label = some []; ip = some (b'i' ∷ []); monitor = 2; curmon = 2; imonitor = 1 }

abbrev a_heap : Heap
a_heap = record {
  targets = λ a. if a == 3 then some a_target else none;
  monitors = λ a. if a == 2 then some a_monitor else none;
  devices = λ a. if a == 1 then some a_device else none;
  request = 4;
  fails = λ _. false;
  reuse = λ _. none;
}

-- The text of a page stands for it by the number of its calls.
abbrev count_calls : List Call → Str
count_calls cs = length cs ∷ []

abbrev unset : Uploader
unset = record { found = false; last = []; sent = [] }

upload-handed_example :
    (last' : Str) × (upload an_api true count_calls false true true 2 2 1 a_heap unset
      ≡ ok (
        record {
          found = true;
          last = last';
          sent =
              handed count_calls false
                (λ s. b'x' ∷ [])
                a_device
                (b'i' ∷ [])
                ((a_monitor, a_target ∷ []) ∷ []);
        },
        pos 0,
      ))
upload-handed_example =
    upload-handed an_api true count_calls false (λ s. b'x' ∷ []) converts a_heap 1 a_device
      (omega arith) refl (b'i' ∷ []) refl true true 2 2 ((a_monitor, a_target ∷ []) ∷ []) unset
      (omega arith) (omega arith, refl, refl, omega arith, (omega arith, refl, refl), refl)

-- A monitor that belongs to no device has an unset pointer to it.
no_device :
    monitor_to_string an_api true count_calls false 2 2
      (record a_heap { monitors = λ a. some (record a_monitor { pd = none }) })
      []
    ≡ fault uninitialised
unfolding monitor_to_string monitor_make_xml deref
no_device = refl

-- The monitor at 5 is added to the device.
abbrev another : Monitor
another = record a_monitor { target = 0; pd = none }

abbrev two_monitors : Heap
two_monitors = record a_heap {
  monitors = λ a. if a == 2 then some a_monitor else if a == 5 then some another else none;
}

abbrev items : Items
items = ((2, a_monitor), a_target ∷ []) ∷ []

one-IsDevice : IsDevice 1 a_device (nodes items) two_monitors
one-IsDevice = record {
  pd_set = omega arith;
  at_pd = refl;
  monitor = refl;
  row = (omega arith, refl, tt, tt);
  count = refl;
}

add_monitor-upload_example :
    (h' : Heap) × (last' : Str) × (device_add_monitor 1 5 two_monitors ≡ ok (h', pos 0))
    × (upload an_api true count_calls false true true 3 2 1 h' unset
        ≡ ok (
          record {
            found = true;
            last = last';
            sent =
                handed count_calls false (λ s. b'x' ∷ []) a_device (b'i' ∷ []) (monitors_of items)
                ++ (b'i' ∷ [], xml count_calls false (λ s. b'x' ∷ []) a_device (another, [])) ∷ [];
          },
          pos 0,
        ))
add_monitor-upload_example =
    add_monitor-upload an_api true count_calls false (λ s. b'x' ∷ []) converts 1 5 3 2 a_device
      another [] two_monitors items (b'i' ∷ []) unset true true one-IsDevice refl
      (refl, omega arith, (omega arith, refl, refl), tt) (omega arith) refl (omega arith)
      (omega arith) refl refl (omega arith) refl
