-- ===== src/South/Targets.antt =====
-- libsouth_interface/south.cpp: `target_destroy`, `monitor_add_target` and `monitor_del_target`. A
-- walk along `_next` has fuel for one node and one more.
use boring.Prelude.{
  ℕ, zero, suc, ◌+◌, ◌-◌, ◌%◌, ◌^◌, Bool, true, false, Option, none, some, ◌==◌, if◌then◌else◌,
}
use boring.Prelude.Int.{ℤ, pos, negsuc}
use boring.Outcome.{Outcome, ok, fault, null_pointer, out_of_fuel, or_fault, ◌>>=◌}
use boring.Dict.{str_eq}
use boring.South.{Str, Target, Heap, malloc, strdup, deref, put_target, put_monitor, free_target}

-- The caller's pointer is null afterwards.
unfoldable pub target_destroy : ℕ → ℕ → Heap → Outcome Heap
target_destroy zero pt h = fault out_of_fuel
target_destroy (suc fuel) pt h = elim (pt == 0) [
  | true ↦ ok h
  | false ↦ do
    temp ← deref h.targets pt
    h' ← target_destroy fuel temp.next h
    temp' ← deref h'.targets pt
    ok (free_target pt h')
]

abbrev pub is_null : Option Str → Bool
is_null none = true
is_null (some s) = false

-- The new target, with its copies of the strings.
abbrev pub new_target : ℕ → Str → Str → Str → ℤ → Heap → Heap × Target
new_target pm label value unit type h =
    let made_label = strdup h label in
    let made_unit = strdup made_label.0 unit in
    let made_value = strdup made_unit.0 value in
    (
      made_value.0,
      record {
        label = made_label.1;
        unit = made_unit.1;
        type = type;
        value = made_value.1;
        next = 0;
        pm = pm;
      },
    )

-- From `pm->_cru->_next = pt` on.
unfoldable pub link_target : ℕ → ℕ → Heap → Outcome (Heap × ℤ)
link_target pm pt h = do
  m ← deref h.monitors pm
  last ← deref h.targets m.cru
  ok (
    put_monitor pm (record m { cru = pt; itarget = (m.itarget + 1) % 2 ^ 32 })
        (put_target m.cru (record last { next = pt }) h),
    pos 0,
  )

unfoldable pub monitor_add_target :
    ℕ → Option Str → Option Str → Option Str → ℤ → Heap → Outcome (Heap × ℤ)
monitor_add_target pm none value unit type h = ok (h, negsuc 0)
monitor_add_target pm (some label) none unit type h = ok (h, negsuc 0)
monitor_add_target pm (some label) (some value) none type h = ok (h, negsuc 0)
monitor_add_target pm (some label) (some value) (some unit) type h =
    let got = malloc h in
    let made = new_target pm label value unit type got.0 in
    if pm == 0
    then ok (h, negsuc 0)
    else if got.1 == 0
    then ok (got.0, negsuc 0)
    else link_target pm got.1 (put_target got.1 made.1 made.0)

-- The loop of `monitor_del_target`; `prev` is `ptemp`.
unfoldable pub del_target_loop : ℕ → ℕ → ℕ → ℕ → Str → Heap → Outcome (Heap × ℤ)
del_target_loop zero pm prev pt label h = fault out_of_fuel
del_target_loop (suc fuel) pm prev pt label h = elim (pt == 0) [
  | true ↦ ok (h, pos 0)
  | false ↦ do
    t ← deref h.targets pt
    name ← or_fault t.label null_pointer
    elim (str_eq name label) [
      | true ↦ do
        before ← deref h.targets prev
        m ← deref h.monitors pm
        h' ← target_destroy 2 pt (
            put_monitor pm (record m { itarget = (m.itarget + (2 ^ 32 - 1)) % 2 ^ 32 })
              (put_target pt (record t { next = 0 })
                (put_target prev (record before { next = t.next }) h)))
        ok (h', pos 0)
      | false ↦ del_target_loop fuel pm pt t.next label h
    ]
]

unfoldable pub monitor_del_target : ℕ → ℕ → Option Str → Heap → Outcome (Heap × ℤ)
monitor_del_target fuel pm none h = ok (h, negsuc 0)
monitor_del_target fuel pm (some label) h = elim (pm == 0) [
  | true ↦ ok (h, negsuc 0)
  | false ↦ do
    m ← deref h.monitors pm
    first ← deref h.targets m.target
    del_target_loop fuel pm m.target first.next label h
]
