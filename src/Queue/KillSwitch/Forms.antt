-- ===== src/Queue/KillSwitch/Forms.antt =====
-- The switch: open by default, and blind to the form in which the value was stored.
use think_tank.Prelude.{◌≡◌, refl, true, List, [], ◌∷◌}
use think_tank.Json.{Value, null, obj, empty, entry}
use think_tank.Config.{SystemConfig}
use think_tank.Queue.KillSwitch.{is_workers_active}

-- The table with this one setting.
abbrev pub set_to : Value → List SystemConfig
set_to v = record { key = "workers_active"; value = v } ∷ []

abbrev pub IsPlain : Value → Type 0
IsPlain null = ⊥
IsPlain (obj fs) = ⊥
IsPlain v = Unit

-- A missing row and a JSON null leave the workers active; a plain value means the same raw and
-- wrapped as {"value": v}; and a dict without "value" leaves them active.
pub is_workers_active_forms :
    (v : Value)
    → IsPlain v
    → (is_workers_active [] ≡ true)
      × (is_workers_active (set_to null) ≡ true)
      × (is_workers_active (set_to (obj empty)) ≡ true)
      × (is_workers_active (set_to (obj (entry "value" v empty))) ≡ is_workers_active (set_to v))
unfolding is_workers_active
is_workers_active_forms null h = elim h [ ]
is_workers_active_forms (obj fs) h = elim h [ ]
is_workers_active_forms v h = (refl, refl, refl, refl)
