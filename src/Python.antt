-- ===== src/Python.antt =====
-- The parts of Python's standard library that the transformation engine calls, as an interface:
-- texts of values, conversions between numbers and texts, dates, JSON and SHA-256.
use agent_len.Base.{ℕ, String, Bool, Option, Result, ℤ}
use agent_len.Json.{Value, Object}
use agent_len.JsonPath.{PathError}

-- The exceptions that the engine tells apart. `operator_failed` carries its code.
pub data Exc : Type 0 where
  operator_failed : String → Exc
  unsupported_path : PathError → Exc
  value_error type_error overflow_error os_error key_error database_error other_error : Exc

-- A datetime: wall-clock microseconds, and the offset of its zone or `none`.
pub record Moment : Type 0 where
  pub wall : ℕ
  pub zone : Option ℤ

pub record Python : Type 0 where
  -- `str(v)`, `s.strip()`, `s.lower()`, `s.upper()`
  pub text : Value → String
  pub strip : String → String
  pub lower : String → String
  pub upper : String → String
  -- `int(v)`, `float(v)`; a float is its bits
  pub to_int : Value → Result Exc ℤ
  pub to_float : Value → Result Exc ℕ
  -- `f * n`, `f * (1 / n)`, `f / n`, `round(f)`, `math.isfinite(f)`
  pub times : ℕ → ℕ → ℕ
  pub times_inverse : ℕ → ℕ → ℕ
  pub over : ℕ → ℕ → ℕ
  pub round : ℕ → Result Exc ℤ
  pub is_finite : ℕ → Bool
  -- `datetime.fromisoformat`, `datetime.fromtimestamp(_, tz=UTC)`, `datetime.strptime`
  pub from_iso : String → Result Exc Moment
  pub from_timestamp : ℕ → Result Exc Moment
  pub strptime : String → String → Result Exc Moment
  -- `json.dumps(_, sort_keys=True, ensure_ascii=False, default=str)` and the hex SHA-256 of a text
  pub dumps : Object → String
  pub sha256 : String → String
  -- Whether `datetime.strptime("", format)` complains about a directive, and the number of groups
  -- of `re.compile(pattern)`, `none` where it does not compile.
  pub bad_format : String → Bool
  pub regex_groups : String → Option ℕ

-- The `RegexExtractor` port: `extract(value, pattern, group)`.
abbrev pub Extractor : Type 0
Extractor = String → Value → Value → Result Exc (Option String)
