-- ===== src/Time.antt =====
-- Instants and stored timestamps: `_format_timestamp` and `_parse_timestamp` of app/database.py.
-- An instant is a count of microseconds since the epoch. A stored timestamp is the ISO text of an
-- instant in UTC cut to whole seconds; such texts compare as their counts of seconds, so a stored
-- timestamp is that count.
use blackbear_edge_bridge.Prelude.{ℕ, ◌*◌, ◌/◌, Option, none, some}

abbrev pub micros : ℕ
micros = 1000000

-- value.astimezone(timezone.utc).isoformat(timespec="seconds")
abbrev pub format_timestamp : ℕ → ℕ
format_timestamp t = t / micros

-- datetime.fromisoformat(value)
abbrev pub parse_timestamp : Option ℕ → Option ℕ
parse_timestamp none = none
parse_timestamp (some s) = some (s * micros)

-- parsed.date(), counted in days
abbrev pub production_date : ℕ → ℕ
production_date s = s / 86400
