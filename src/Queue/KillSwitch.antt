-- ===== src/Queue/KillSwitch.antt =====
-- queue/kill_switch.py: the global switch `workers_active`, open when it is not configured.
pub mod Forms
use think_tank.Prelude.{
  ℕ, ◌≡◌, refl, String, Bool, true, false, not, ◌||◌, List, [], ◌∷◌, map, any, codes, strip, lower,
  same,
}
use think_tank.Json.{Value, null, bool, str, obj, get, truthy}
use think_tank.Config.{SystemConfig, config_value}

-- `value.strip().lower() in ("false", "0", "no", "off", "")`
unfoldable pub spells_false : String → Bool
unfolding strip lower same
spells_false s =
    any (same (map lower (strip (codes s))))
      (codes "false" ∷ codes "0" ∷ codes "no" ∷ codes "off" ∷ codes "" ∷ [])

unfoldable pub is_active_value : Value → Bool
unfolding spells_false truthy
is_active_value (str s) = not (spells_false s)
is_active_value v = truthy v

unfoldable pub unwrap_value : Value → Value
unfolding get
unwrap_value (obj fs) = get fs "value" (bool true)
unwrap_value v = v

unfoldable pub is_workers_active : List SystemConfig → Bool
unfolding config_value is_active_value unwrap_value
is_workers_active config = elim (config_value "workers_active" config) [
  | null ↦ true
  | row ↦ is_active_value (unwrap_value row)
]
