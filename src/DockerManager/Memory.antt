-- ===== src/DockerManager/Memory.antt =====
-- src/docker.rs: `parse_memory_limit`, and the number of processors.
use spawngate.Base.{ℕ, ◌^◌, ◌||◌, Option, none, some, ◌++◌, Result, ok, err, if◌then◌else◌}
use spawngate.Base.Text.{Text, codes, to_lowercase}
use spawngate.Base.Strings.{trim, ends_with, trim_end_matches}
use spawngate.Base.Integer.{ℤ}

-- `f64`: how it is read, and `(x * m as f64) as i64`.
pub record Floats : Type 1 where
  pub F : Type 0
  pub parse_f64 : Text → Option F
  pub times_as_i64 : F → ℕ → ℤ

-- The number without its unit, and the bytes of the unit.
unfoldable pub split_unit : Text → Text × ℕ
unfolding ends_with trim_end_matches
split_unit limit =
    if ends_with (codes "g") limit || ends_with (codes "gb") limit
    then (trim_end_matches (codes "g") (trim_end_matches (codes "gb") limit), 2 ^ 30)
    else if ends_with (codes "m") limit || ends_with (codes "mb") limit
    then (trim_end_matches (codes "m") (trim_end_matches (codes "mb") limit), 2 ^ 20)
    else if ends_with (codes "k") limit || ends_with (codes "kb") limit
    then (trim_end_matches (codes "k") (trim_end_matches (codes "kb") limit), 2 ^ 10)
    else (limit, 1)

module _ (fl : Floats) where
  unfoldable pub read_limit : Text → Text × ℕ → Result Text ℤ
  read_limit limit (num_str, multiplier) = elim (fl.parse_f64 num_str) [
    | none ↦ err (codes "Invalid memory limit: " ++ limit)
    | some num ↦ ok (fl.times_as_i64 num multiplier)
  ]

  unfoldable pub parse_memory_limit : Text → Result Text ℤ
  unfolding split_unit trim to_lowercase read_limit
  parse_memory_limit text =
      let limit = to_lowercase (trim text) in read_limit limit (split_unit limit)

  -- In billionths of a processor.
  unfoldable pub parse_cpus : Text → Result Text ℤ
  parse_cpus cpus = elim (fl.parse_f64 cpus) [
    | none ↦ err (codes "Invalid CPU limit: " ++ cpus)
    | some count ↦ ok (fl.times_as_i64 count 1000000000)
  ]
