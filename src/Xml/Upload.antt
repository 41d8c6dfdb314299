-- ===== src/Xml/Upload.antt =====
-- `upload` of libsouth_interface/southxml.cpp. `loads` and `finds` are what `LoadLibrary` and
-- `GetProcAddress` give.
use boring.Prelude.{ℕ, zero, suc, Bool, true, false, ◌&&◌, ◌||◌, List, [], ◌∷◌, ◌++◌, ◌==◌}
use boring.Prelude.Int.{ℤ, pos, negsuc}
use boring.Outcome.{Outcome, ok, fault, null_pointer, out_of_fuel, or_fault, ◌>>=◌}
use boring.Memory.{deref}
use boring.Encode.{Conversions}
use boring.South.{Str, Device, Heap}
use boring.Xml.{Call}
use boring.Xml.Make.{monitor_to_string}

-- The static variables, `pFun` as whether it is set, and what was handed to the function so far.
pub record Uploader : Type 0 where
  pub found : Bool
  pub last : Str
  pub sent : List (Str × Str)

module _ (api : Conversions) (right_first : Bool) (print : List Call → Str) (opens : Bool) where
  -- The loop over the monitors, `targets` is the fuel of each for its targets.
  unfoldable pub upload_loop : ℕ → ℕ → ℕ → Device → Heap → Uploader → Outcome Uploader
  upload_loop zero targets pm d h u = fault out_of_fuel
  upload_loop (suc fuel) targets pm d h u = elim (pm == 0) [
    | true ↦ ok u
    | false ↦ do
      made ← monitor_to_string api right_first print opens targets pm h u.last
      ip ← or_fault d.ip null_pointer
      m ← deref h.monitors pm
      upload_loop fuel targets m.next d h
          (record u { last = made.1; sent = u.sent ++ (ip, made.0) ∷ [] })
  ]

  unfoldable pub upload : Bool → Bool → ℕ → ℕ → ℕ → Heap → Uploader → Outcome (Uploader × ℤ)
  upload loads finds fuel targets pd h u = elim (pd == 0) [
    | true ↦ ok (u, negsuc 0)
    | false ↦ elim (u.found || (loads && finds)) [
      | false ↦ ok (u, negsuc 0)
      | true ↦ do
        d ← deref h.devices pd
        u' ← upload_loop fuel targets d.monitor d h (record u { found = true })
        ok (u', pos 0)
    ]
  ]
