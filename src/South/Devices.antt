-- ===== src/South/Devices.antt =====
-- libsouth_interface/south.cpp: the device and its list of monitors.
use boring.Prelude.{
  ℕ, zero, suc, ◌+◌, ◌-◌, ◌%◌, ◌^◌, true, false, Option, none, some, ◌==◌, if◌then◌else◌,
}
use boring.Prelude.Int.{ℤ, pos, negsuc}
use boring.Outcome.{Outcome, ok, fault, null_pointer, out_of_fuel, or_fault, ◌>>=◌}
use boring.Dict.{str_eq}
use boring.South.{Str, Device, Heap, malloc, strdup, deref, put_monitor, put_device, free_device}
use boring.South.Monitors.{monitor_destory}

unfoldable pub device_new : Option Str → Option Str → Heap → Outcome (Heap × ℕ)
device_new ip none h = ok (h, 0)
device_new none (some label) h = ok (h, 0)
device_new (some ip) (some label) h =
    let got = malloc h in
    let made_label = strdup got.0 label in
    let made_ip = strdup made_label.0 ip in
    if got.1 == 0
    then ok (got.0, 0)
    else ok (
      put_device got.1
          (record { label = made_label.1; ip = made_ip.1; monitor = 0; curmon = 0; imonitor = 0 })
          made_ip.0,
      got.1,
    )

-- `pd->_curmon->_next = pm`, where the list is not empty.
unfoldable pub link_monitor : Device → ℕ → Heap → Outcome (Device × Heap)
link_monitor d pm h = elim (d.monitor == 0) [
  | true ↦ ok (record d { monitor = pm }, h)
  | false ↦ do
    last ← deref h.monitors d.curmon
    ok (d, put_monitor d.curmon (record last { next = pm }) h)
]

unfoldable pub device_add_monitor : ℕ → ℕ → Heap → Outcome (Heap × ℤ)
device_add_monitor pd pm h = elim (pd == 0) [
  | true ↦ ok (h, negsuc 0)
  | false ↦ elim (pm == 0) [
    | true ↦ ok (h, negsuc 0)
    | false ↦ do
      m ← deref h.monitors pm
      let h' = put_monitor pm (record m { pd = some pd }) h
      d ← deref h'.devices pd
      linked ← link_monitor d pm h'
      ok (
        put_device pd (record linked.0 { curmon = pm; imonitor = (linked.0.imonitor + 1) % 2 ^ 32 })
            linked.1,
        pos 0,
      )
  ]
]

-- `pd->_monitor = pm->_next` or `ptemp->_next = pm->_next`.
unfoldable pub unlink_monitor : ℕ → ℕ → ℕ → Heap → Outcome Heap
unlink_monitor pd prev next h = elim (prev == 0) [
  | true ↦ do d ← deref h.devices pd; ok (put_device pd (record d { monitor = next }) h)
  | false ↦ do
    before ← deref h.monitors prev
    ok (put_monitor prev (record before { next = next }) h)
]

-- The loop of `device_del_monitor`; `prev` is `ptemp`.
unfoldable pub del_monitor_loop : ℕ → ℕ → ℕ → ℕ → Str → Heap → Outcome (Heap × ℤ)
del_monitor_loop zero pd prev pm label h = fault out_of_fuel
del_monitor_loop (suc fuel) pd prev pm label h = elim (pm == 0) [
  | true ↦ ok (h, pos 0)
  | false ↦ do
    m ← deref h.monitors pm
    name ← or_fault m.label null_pointer
    elim (str_eq name label) [
      | true ↦ do
        h1 ← unlink_monitor pd prev m.next h
        d ← deref h1.devices pd
        h2 ← monitor_destory fuel pm (
            put_monitor pm (record m { next = 0 })
              (put_device pd (record d { imonitor = (d.imonitor + (2 ^ 32 - 1)) % 2 ^ 32 }) h1))
        ok (h2, pos 0)
      | false ↦ del_monitor_loop fuel pd pm m.next label h
    ]
]

unfoldable pub device_del_monitor : ℕ → ℕ → Option Str → Heap → Outcome (Heap × ℤ)
device_del_monitor fuel pd none h = ok (h, negsuc 0)
device_del_monitor fuel pd (some label) h = elim (pd == 0) [
  | true ↦ ok (h, negsuc 0)
  | false ↦ do d ← deref h.devices pd; del_monitor_loop fuel pd 0 d.monitor label h
]

unfoldable pub device_destory : ℕ → ℕ → Heap → Outcome Heap
device_destory fuel pd h = elim (pd == 0) [
  | true ↦ ok h
  | false ↦ do
    temp ← deref h.devices pd
    h' ← monitor_destory fuel temp.monitor h
    temp' ← deref h'.devices pd
    ok (free_device pd h')
]
