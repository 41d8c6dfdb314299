-- ===== src/South/Removal.antt =====
-- `monitor_del_target` of libsouth_interface/south.cpp against the list of the monitor's targets.
use boring.Prelude.{ℕ, ◌+◌, ◌-◌, ◌%◌, ◌^◌, if◌then◌else◌}
use boring.South.{Str, Target, Monitor, Heap}
use boring.South.Chain.{Nodes, holds_label}

module _ (pm a : ℕ) (first : Target) (ts : Nodes) (m : Monitor) (h : Heap) (gone : Str)
    (fuel : ℕ) where
  -- The monitor after the deletion.
  abbrev counted : Monitor
  counted = record m {
    itarget = (if holds_label gone ts then (m.itarget + (2 ^ 32 - 1)) % 2 ^ 32 else m.itarget);
  }
