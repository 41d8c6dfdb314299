-- ===== src/South/RemovalTests.antt =====
-- libsouth_interface/south.cpp: a device at 1 with monitors at 2 and 3, the second one with a target
-- at 4, and a monitor at 5 that belongs to no device.
use boring.Prelude.{ℕ, false, [], ◌∷◌, none, some}
use boring.Prelude.Int.{pos}
use boring.Memory.{update}
use boring.South.{Target, Monitor, Device, Heap}
use boring.South.DeviceDestruction.{Tree}

abbrev monitor : ℕ → Monitor
monitor c = record {
  stat = pos 0;
  label = some (c ∷ []);
  target = 0;
  cru = 0;
  itarget = 0;
  next = 0;
  pd = some 1;
}

abbrev second : Monitor
second = record (monitor b'b') { target = 4; cru = 4; itarget = 1 }

abbrev reading : Target
reading = record {
  label = some (b't' ∷ []);
  unit = none;
  type = pos 1;
  value = none;
  next = 0;
  pm = 3;
}

abbrev device : Device
device = record { label = none; ip = none; monitor = 2; curmon = 3; imonitor = 2 }

abbrev heap : Heap
heap = record {
  targets = update (λ _. none) 4 (some reading);
  monitors =
      update
        (update (update (λ _. none) 2 (some (record (monitor b'a') { next = 3 }))) 3 (some second))
        5 (some (monitor b'c'));
  devices = update (λ _. none) 1 (some device);
  request = 6;
  fails = λ _. false;
  reuse = λ _. none;
}

abbrev both : Tree
both = (2, monitor b'a', []) ∷ (3, second, (4, reading) ∷ []) ∷ []

abbrev only_second : Tree
only_second = (3, second, (4, reading) ∷ []) ∷ []
