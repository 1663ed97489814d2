-- ===== src/AptPackage.antt =====
-- bosun-primitives/src/apt_package/{spec,exec,plan}.rs: packages, what a command left, and the plan.
pub mod Texts
pub mod Recovery
pub mod Apply
pub mod Costs
pub mod Calls
pub mod Converge
mod Examples
use bonsun.Base.{
  ℕ, Bool, true, false, ◌||◌, List, [], ◌∷◌, ◌++◌, Option, none, some, Text, text_eq, codes, ◌==◌,
  if◌then◌else◌,
}
use bonsun.Resource.{Resource}
use bonsun.Primitive.{ℤ, pos, negsuc, PrimitiveError, invalid_payload, Diff, add, update}
use bonsun.Inventory.{Value, Fields, get_field, insert_field}
use bonsun.Facts.{FactValue, known, unknown, stale}
use bonsun.AptPackage.Texts.{has_text}
use bonsun.Effects.{Result, ok, err}

pub data AptPackageState : Type 0 where
  present absent purged : AptPackageState

pub record AptPackageSpec : Type 0 where
  pub name : Text
  pub version : Option Text
  pub state : AptPackageState
  pub timeout_sec : ℕ
  pub allow_downgrade : Bool
  pub allow_change_held : Bool

pub record CommandResult : Type 0 where
  pub exit_code : Option ℤ
  pub stdout : Text
  pub stderr : Text

pub data InstallOutcome : Type 0 where
  success dpkg_interrupted candidate_missing other_failure : InstallOutcome

-- The branch for the exit code 100.
abbrev of_stderr : Text → InstallOutcome
of_stderr stderr =
    if has_text (codes "dpkg was interrupted") stderr
    then dpkg_interrupted
    else if has_text (codes "Unable to locate package") stderr
        || has_text (codes "Unable to fetch some archives") stderr
    then candidate_missing
    else other_failure

abbrev pub exited_with : ℕ → Option ℤ → Bool
exited_with n (some (pos m)) = m == n
exited_with n (some (negsuc m)) = false
exited_with n none = false

-- `analyze_install_result`
unfoldable pub analyze_install_result : CommandResult → InstallOutcome
analyze_install_result result =
    if exited_with 0 result.exit_code
    then success
    else if exited_with 100 result.exit_code
    then of_stderr result.stderr
    else other_failure

abbrev or_latest : Option Text → Text
or_latest none = codes "latest"
or_latest (some v) = v

-- `json!` of a map with the name of the package and one other text.
abbrev named : (spec : AptPackageSpec) → (key text : Text) → Value
named spec key text = Value.object (
    insert_field key (Value.string text)
      (Fields.field (codes "name") (Value.string spec.name) Fields.done))

abbrev to_state : AptPackageSpec → (from to description : Text) → Diff Value
to_state spec from to description =
    update (named spec (codes "state") from) (named spec (codes "state") to) description

abbrev fallback_in : AptPackageState → AptPackageSpec → Value → Diff Value
fallback_in present spec payload =
    add
      (codes "install "
        ++ spec.name
        ++ codes " ["
        ++ or_latest spec.version
        ++ codes "] (facts unknown, fallback)")
      payload
fallback_in absent spec payload =
    to_state spec (codes "unknown") (codes "absent")
      (codes "remove " ++ spec.name ++ codes " (facts unknown, fallback)")
fallback_in purged spec payload =
    to_state spec (codes "unknown") (codes "purged")
      (codes "purge " ++ spec.name ++ codes " (facts unknown, fallback)")

-- `unknown_facts_fallback`
abbrev pub unknown_facts_fallback : AptPackageSpec → Value → Diff Value
unknown_facts_fallback spec payload = fallback_in spec.state spec payload

abbrev text_or_empty : Option Value → Text
text_or_empty (some (Value.string s)) = s
text_or_empty _ = []

-- `entry.get("current_version").and_then(as_str).unwrap_or("")`
abbrev pub current_version : Value → Text
current_version (Value.object fs) = text_or_empty (get_field (codes "current_version") fs)
current_version _ = []

abbrev diff_version : AptPackageSpec → Option Text → (current : Text) → Diff Value
diff_version spec none current = Diff.no_change
diff_version spec (some want) current =
    if text_eq want current
    then Diff.no_change
    else update (named spec (codes "version") current) (named spec (codes "version") want)
        (codes "update " ++ spec.name ++ codes " " ++ current ++ codes " -> " ++ want)

-- `diff_present`
abbrev pub diff_present : AptPackageSpec → Option Value → Value → Diff Value
diff_present spec none payload =
    add
      (codes "install "
        ++ spec.name
        ++ codes " ["
        ++ or_latest spec.version
        ++ codes "] (not installed)")
      payload
diff_present spec (some entry) payload = diff_version spec spec.version (current_version entry)

-- `diff_absent`
abbrev pub diff_absent : AptPackageSpec → Option Value → Diff Value
diff_absent spec (some entry) =
    to_state spec (codes "installed") (codes "absent") (codes "remove " ++ spec.name)
diff_absent spec none = Diff.no_change

-- `diff_purged`
abbrev pub diff_purged : AptPackageSpec → Option Value → Diff Value
diff_purged spec (some entry) =
    to_state spec (codes "installed") (codes "purged") (codes "purge " ++ spec.name)
diff_purged spec none =
    to_state spec (codes "unknown") (codes "purged")
      (codes "purge " ++ spec.name ++ codes " (best-effort, may have config-files)")

abbrev pub diff_in : AptPackageState → AptPackageSpec → Option Value → Value → Diff Value
diff_in present spec entry payload = diff_present spec entry payload
diff_in absent spec entry payload = diff_absent spec entry
diff_in purged spec entry payload = diff_purged spec entry

-- `diff_against_known`
abbrev pub diff_against_known : AptPackageSpec → Value → Value → Diff Value
diff_against_known spec (Value.object fs) payload =
    diff_in spec.state spec (get_field spec.name fs) payload
diff_against_known spec _ payload = unknown_facts_fallback spec payload

abbrev pub diff_of_fact : AptPackageSpec → FactValue Value → Value → Diff Value
diff_of_fact spec (known value) payload = diff_against_known spec value payload
diff_of_fact spec (unknown reason) payload = unknown_facts_fallback spec payload
diff_of_fact spec (stale value age) payload = unknown_facts_fallback spec payload

abbrev pub payload_error : Text → PrimitiveError
payload_error e = invalid_payload (codes "apt.package payload: " ++ e)

abbrev planned :
    Result Text AptPackageSpec → FactValue Value → Value → Result PrimitiveError (Diff Value)
planned (err e) fact payload = err (payload_error e)
planned (ok spec) fact payload = ok (diff_of_fact spec fact payload)

-- `compute_diff`; `facts` is `FactsSource::get`, and `from_value` serde.
unfoldable pub compute_diff :
    (from_value : Value → Result Text AptPackageSpec)
    → Resource Value
    → (facts : Text → FactValue Value) → Result PrimitiveError (Diff Value)
compute_diff from_value r facts =
    planned (from_value r.payload) (facts (codes "installed_packages")) r.payload
