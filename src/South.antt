-- ===== src/South.antt =====
-- libsouth_interface/southxml.h and south.cpp: the structs `target`, `monitor` and `device`, and the
-- memory they live in. An address is a number, `NULL` is 0. A C string is its bytes before the
-- terminating zero; it belongs to the one cell that holds it, so it stands in the cell by value, and
-- `none` is a null pointer.
pub mod Targets
pub mod Monitors
pub mod Devices
pub mod Chain
pub mod Steps
pub mod Refinement
pub mod Removal
pub mod Destruction
pub mod DeviceList
pub mod DeviceDestruction
pub mod DeviceFrames
pub mod DeviceSteps
pub mod DeviceRemoval
mod Tests
mod RemovalTests
unfoldable pub use boring.Memory.{update, deref}
use boring.Prelude.{
  ℕ, suc, ◌+◌, Bool, true, false, List, [], ◌∷◌, Option, none, some, ◌==◌, if◌then◌else◌,
}
use boring.Prelude.Int.{ℤ}
use boring.Outcome.{Outcome, ok, fault, null_pointer, dangling_pointer}

abbrev pub Str : Type 0
Str = List ℕ

pub record Target : Type 0 where
  pub label : Option Str
  pub unit : Option Str
  pub type : ℤ
  pub value : Option Str
  pub next : ℕ
  pub pm : ℕ

-- `pd` is `none` until `device_add_monitor` writes it: `malloc` leaves it unset.
pub record Monitor : Type 0 where
  pub stat : ℤ
  pub label : Option Str
  pub target : ℕ
  pub cru : ℕ
  pub itarget : ℕ
  pub next : ℕ
  pub pd : Option ℕ

pub record Device : Type 0 where
  pub label : Option Str
  pub ip : Option Str
  pub monitor : ℕ
  pub curmon : ℕ
  pub imonitor : ℕ

-- The live cells, the number of the next request for memory, which requests fail, and which get an
-- address that was used before; any other gets its number, which is a new address.
pub record Heap : Type 0 where
  pub targets : ℕ → Option Target
  pub monitors : ℕ → Option Monitor
  pub devices : ℕ → Option Device
  pub request : ℕ
  pub fails : ℕ → Bool
  pub reuse : ℕ → Option ℕ

-- The address that a request gets.
abbrev pub address : Option ℕ → ℕ → ℕ
address none request = request
address (some a) request = a

-- `malloc`: the heap after it and the address, 0 when the request fails.
unfoldable pub malloc : Heap → Heap × ℕ
malloc h = (
  record h { request = suc h.request },
  (if h.fails h.request then 0 else address (h.reuse h.request) h.request),
)

-- `_strdup`, of a string that is not null.
unfoldable pub strdup : Heap → Str → Heap × Option Str
strdup h s = (record h { request = suc h.request }, (if h.fails h.request then none else some s))

unfoldable pub put_target : ℕ → Target → Heap → Heap
put_target a t h = record h { targets = update h.targets a (some t) }

unfoldable pub put_monitor : ℕ → Monitor → Heap → Heap
put_monitor a m h = record h { monitors = update h.monitors a (some m) }

unfoldable pub put_device : ℕ → Device → Heap → Heap
put_device a d h = record h { devices = update h.devices a (some d) }

unfoldable pub free_target : ℕ → Heap → Heap
free_target a h = record h { targets = update h.targets a none }

unfoldable pub free_monitor : ℕ → Heap → Heap
free_monitor a h = record h { monitors = update h.monitors a none }

unfoldable pub free_device : ℕ → Heap → Heap
free_device a h = record h { devices = update h.devices a none }
