-- ===== src/Config.antt =====
-- The table `system_config` and the readers of one setting: models/config_table.py,
-- ingestion/config_reader.py and the private getters of queue/ that repeat one pattern.
use think_tank.Prelude.{ℤ, String, List, [], ◌∷◌, str_eq, if◌then◌else◌}
use think_tank.Json.{Value, null, int, obj, Result, ok, raise, get, to_int}

-- One row; `key` is the primary key.
pub record SystemConfig : Type 0 where
  pub key : String
  pub value : Value

-- `select(SystemConfig.value).where(key == k)` and `scalar_one_or_none()`: None for a missing row,
-- and for a JSON null.
unfoldable pub config_value : String → List SystemConfig → Value
config_value k [] = null
config_value k (row ∷ rows) = if str_eq row.key k then row.value else config_value k rows

-- `get_config_value(session, key, default)`
unfoldable pub get_config_value : List SystemConfig → String → Value → Value
unfolding config_value
get_config_value rows k default = elim (config_value k rows) [ null ↦ default | v ↦ v ]

-- `int(row.get("value", default))` for a dict, `int(row)` for anything else.
unfoldable pub int_setting : ℤ → Value → Result ℤ
unfolding get to_int
int_setting default (obj fs) = to_int (get fs "value" (int default))
int_setting default v = to_int v

-- The same behind `if row is None: return default`.
unfoldable pub int_setting_or : ℤ → Value → Result ℤ
unfolding int_setting
int_setting_or default null = ok default
int_setting_or default v = int_setting default v

-- `int(value)`, where TypeError and ValueError leave the default.
unfoldable pub int_or : ℤ → Value → ℤ
int_or default v = elim (to_int v) [ ok n ↦ n | raise e ↦ default ]
