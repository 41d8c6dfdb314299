-- ===== src/South/Tests.antt =====
-- libsouth_interface/south.cpp on a monitor with three targets.
use boring.Prelude.{ℕ, ◌≡◌, refl, arith, false, [], ◌∷◌, none, some}
use boring.Prelude.Int.{pos}
use boring.Outcome.{ok}
use boring.South.{Target, Monitor, Device, Heap, update}
use boring.South.Devices.{device_add_monitor}
use boring.South.DeviceDestruction.{Tree}
use boring.South.DeviceList.{IsDevice, IsCurrent, device_add_monitor-IsDevice}
use boring.South.Targets.{target_destroy}
use boring.South.Chain.{Nodes}
use boring.South.Destruction.{Destroyed, target_destroy-Destroyed}

abbrev target : ℕ → Target
target c = record {
  label = some (c ∷ []);
  unit = none;
  type = pos 1;
  value = none;
  next = 0;
  pm = 1;
}

abbrev linked : ℕ → ℕ → Target
linked c next = record {
  label = some (c ∷ []);
  unit = none;
  type = pos 1;
  value = none;
  next = next;
  pm = 1;
}

-- Behind the first target, labelled `s`, there are `a` and `b`.
abbrev behind : Nodes
behind = (3, target b'a') ∷ (4, target b'b') ∷ []

abbrev monitor : Monitor
monitor = record {
  stat = pos 0;
  label = some (b'm' ∷ []);
  target = 2;
  cru = 4;
  itarget = 3;
  next = 0;
  pd = none;
}

abbrev heap : Heap
heap = record {
  targets =
      update (update (update (λ _. none) 2 (some (linked b's' 3))) 3 (some (linked b'a' 4))) 4
        (some (linked b'b' 0));
  monitors = update (λ _. none) 1 (some monitor);
  devices = λ _. none;
  request = 5;
  fails = λ _. false;
  reuse = λ _. none;
}

frees_targets : (h' : Heap) × (target_destroy 3 3 heap ≡ ok h') × Destroyed behind heap h'
frees_targets =
    target_destroy-Destroyed 3 0 5 behind heap (omega arith)
      (omega arith, omega arith, refl, (omega arith, omega arith, refl, tt))

-- A device with the monitor at 2; the one at 3 is added.
abbrev a_device : Device
a_device = record { label = none; ip = none; monitor = 2; curmon = 2; imonitor = 1 }

abbrev lone : ℕ → Monitor
lone stat = record {
  stat = pos stat;
  label = none;
  target = 0;
  cru = 0;
  itarget = 0;
  next = 0;
  pd = none;
}

abbrev device_heap : Heap
device_heap = record {
  targets = λ _. none;
  monitors = update (update (λ _. none) 2 (some (lone 0))) 3 (some (lone 1));
  devices = update (λ _. none) 1 (some a_device);
  request = 4;
  fails = λ _. false;
  reuse = λ _. none;
}

a_device-IsDevice : IsDevice 1 a_device ((2, lone 0) ∷ []) device_heap
a_device-IsDevice = record {
  pd_set = omega arith;
  at_pd = refl;
  monitor = refl;
  row = (omega arith, refl, tt, tt);
  count = refl;
}

device_add_monitor-IsDevice_example :
    (d' : Device) × (h' : Heap) × (device_add_monitor 1 3 device_heap ≡ ok (h', pos 0))
    × IsDevice 1 d' ((2, lone 0) ∷ (3, record (lone 1) { pd = some 1 }) ∷ []) h'
    × IsCurrent d' ((2, lone 0) ∷ (3, record (lone 1) { pd = some 1 }) ∷ [])
    × (h'.targets ≡ device_heap.targets)
    × (d'.ip ≡ a_device.ip)
    × (d'.label ≡ a_device.label)
device_add_monitor-IsDevice_example =
    device_add_monitor-IsDevice 1 3 a_device (lone 1) device_heap ((2, lone 0) ∷ [])
      a_device-IsDevice refl (omega arith) refl (omega arith)

-- The device with two linked monitors, the second one with a target at 4.
abbrev second : Monitor
second = record (lone 1) { target = 4; cru = 4; itarget = 1 }

abbrev full_heap : Heap
full_heap = record device_heap {
  targets = update (λ _. none) 4 (some (record (target b'a') { next = 0 }));
  monitors = update (update (λ _. none) 2 (some (record (lone 0) { next = 3 }))) 3 (some second);
  request = 5;
}

abbrev both : Tree
both = (2, lone 0, []) ∷ (3, second, (4, target b'a') ∷ []) ∷ []
