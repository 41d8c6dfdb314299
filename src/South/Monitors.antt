-- ===== src/South/Monitors.antt =====
-- libsouth_interface/south.cpp: `monitor_new`, `monitor_set_stat` and `monitor_destory`.
use boring.Prelude.{
  ℕ, zero, suc, true, false, List, [], ◌∷◌, Option, none, some, ◌==◌, if◌then◌else◌, get_elem?,
}
use boring.Prelude.Int.{ℤ, pos, negsuc}
use boring.Outcome.{Outcome, ok, fault, null_pointer, out_of_bounds, out_of_fuel, or_fault, ◌>>=◌}
use boring.South.{
  Str, Target, Monitor, Heap, malloc, strdup, deref, put_target, put_monitor, free_monitor,
}
use boring.South.Targets.{target_destroy}

abbrev pub status_names : List Str
status_names = (b'0' ∷ []) ∷ (b'1' ∷ []) ∷ (b'2' ∷ []) ∷ []

-- `status[i]`, read out of bounds for any other index.
abbrev pub status : ℤ → Outcome Str
status (pos n) = or_fault (get_elem? status_names n) out_of_bounds
status (negsuc n) = fault out_of_bounds

-- `XML_PROP_VALUE_WORK_STATUS`, as the source file has it (in GBK).
abbrev pub work_status : Str
work_status = 185 ∷ 164 ∷ 215 ∷ 247 ∷ 215 ∷ 180 ∷ 204 ∷ 172 ∷ []

-- From the assignments to `*pt` on.
unfoldable pub fill_monitor : ℕ → ℕ → Str → ℤ → Heap → Outcome (Heap × ℕ)
fill_monitor pm pt label stat h = do
  let made_label = strdup h work_status
  text ← status stat
  let made_value = strdup made_label.0 text
  let made_name = strdup made_value.0 label
  let t : Target = record {
    label = made_label.1;
    unit = none;
    type = pos 1;
    value = made_value.1;
    next = 0;
    pm = pm;
  }
  let m : Monitor = record {
    stat = stat;
    label = made_name.1;
    target = pt;
    cru = pt;
    itarget = 1;
    next = 0;
    pd = none;
  }
  ok (put_monitor pm m (put_target pt t made_name.0), pm)

-- The heap and the new monitor, or 0. When the second `malloc` fails, the monitor, which nothing has
-- written, is freed: no cell of it is ever live.
unfoldable pub monitor_new : Option Str → ℤ → Heap → Outcome (Heap × ℕ)
monitor_new none stat h = ok (h, 0)
monitor_new (some label) stat h =
    let got = malloc h in
    let got' = malloc got.0 in
    if got.1 == 0
    then ok (got.0, 0)
    else if got'.1 == 0
    then ok (got'.0, 0)
    else fill_monitor got.1 got'.1 label stat got'.0

-- `memcpy(p, src, 1)` onto a string. Onto an empty one it would overwrite the terminating zero, and
-- the model stops.
abbrev pub set_first : Str → Str → Outcome Str
set_first [] src = fault out_of_bounds
set_first (c ∷ cs) [] = ok []
set_first (c ∷ cs) (d ∷ src) = ok (d ∷ cs)

unfoldable pub monitor_set_stat : ℕ → ℤ → Heap → Outcome (Heap × ℤ)
monitor_set_stat pm stat h = elim (pm == 0) [
  | true ↦ ok (h, negsuc 0)
  | false ↦ do
    m ← deref h.monitors pm
    t ← deref h.targets m.target
    text ← status stat
    value ← or_fault t.value null_pointer
    value' ← set_first value text
    ok (put_target m.target (record t { value = some value' }) h, pos 0)
]

-- The caller's pointer is null afterwards. `fuel` bounds both lists.
unfoldable pub monitor_destory : ℕ → ℕ → Heap → Outcome Heap
monitor_destory zero pm h = fault out_of_fuel
monitor_destory (suc fuel) pm h = elim (pm == 0) [
  | true ↦ ok h
  | false ↦ do
    temp ← deref h.monitors pm
    h' ← monitor_destory fuel temp.next h
    temp' ← deref h'.monitors pm
    h'' ← target_destroy fuel temp'.target h'
    ok (free_monitor pm h'')
]
