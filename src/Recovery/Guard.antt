-- ===== src/Recovery/Guard.antt =====
-- recovery/persistence_guard.py and the schema version of contracts/frozen/schema_version.py: whether a
-- snapshot can be restored. `parse` reads the three numbers of a version, `print` and `show` write a
-- version and a number.
use Prim.Native.String.{◌++◌ as concat}
use stocky_cognitive_runtime.Prelude.{
  ℕ, ◌==◌, String, Bool, true, false, ◌||◌, Option, none, some, List, [], ◌∷◌, ◌++◌, length, str_eq,
  if◌then◌else◌,
}
use stocky_cognitive_runtime.Recovery.Snapshot.{RuntimeSnapshot}

pub record SchemaVersion : Type 0 where
  pub major : ℕ
  pub minor : ℕ
  pub patch : ℕ

abbrev pub is_compatible_with : SchemaVersion → SchemaVersion → Bool
is_compatible_with a b = if a.major == b.major then a.minor == b.minor else false

abbrev pub frozen_schema_version : SchemaVersion
frozen_schema_version = record { major = 1; minor = 1; patch = 0 }

pub record PersistenceValidation : Type 0 where
  pub valid : Bool
  pub schema_match : Bool
  pub contract_violations : List String

-- The Python calls that the guard makes.
pub record Texts : Type 0 where
  pub parse : String → Option SchemaVersion
  pub show : ℕ → String
  pub fingerprint : String

abbrev mismatch : String → String
mismatch version = concat "Schema mismatch: snapshot=" (concat version " current=1.1.0")

-- The schema part, without an evolution guard: the match and the violations.
abbrev pub check_version : Option SchemaVersion → String → Bool × List String
check_version none version =
    (false, concat "Invalid schema version: " version ∷ mismatch version ∷ [])
check_version (some v) version =
    if is_compatible_with v frozen_schema_version
    then (true, [])
    else (false, mismatch version ∷ [])

abbrev pub check_count : Texts → RuntimeSnapshot → List String
check_count texts s =
    if length s.traces == s.trace_count
    then []
    else concat "Trace count mismatch: reported="
        (concat (texts.show s.trace_count) (concat " actual=" (texts.show (length s.traces))))
      ∷ []

abbrev pub check_fingerprint : Texts → RuntimeSnapshot → List String
check_fingerprint texts s =
    if str_eq s.schema_fingerprint "" || str_eq s.schema_fingerprint texts.fingerprint
    then []
    else concat "Fingerprint mismatch: snapshot="
        (concat s.schema_fingerprint (concat " expected=" texts.fingerprint))
      ∷ []

abbrev is_empty : List String → Bool
is_empty [] = true
is_empty (v ∷ vs) = false

-- `validate_snapshot`. The required fields are those of the record.
unfoldable pub validate_snapshot : Texts → RuntimeSnapshot → PersistenceValidation
validate_snapshot texts s =
    let version = check_version (texts.parse s.schema_version) s.schema_version in
    let violations = version.1 ++ (check_count texts s ++ check_fingerprint texts s) in
    record {
      valid = is_empty violations;
      schema_match = version.0;
      contract_violations = violations;
    }
