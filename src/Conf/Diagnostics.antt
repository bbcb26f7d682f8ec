-- ===== src/Conf/Diagnostics.antt =====
-- crates/djls-conf/src/diagnostics.rs: the severity of a diagnostic code. A `HashMap` is the list of its
-- entries in the order in which it iterates.
pub mod Best
pub mod Longest
mod Tests
use django_language_server.Base.{
  ℕ, Bool, true, false, ltb, if◌then◌else◌, Option, none, some, List, [], ◌∷◌,
}
use django_language_server.Base.Text.{Text, byte_len, text_eq, starts_with}

pub data DiagnosticSeverity : Type 0 where
  off error warning info hint : DiagnosticSeverity

pub record DiagnosticsConfig : Type 0 where
  pub severity : List (Text × DiagnosticSeverity)

-- `HashMap::get`.
abbrev pub get : List (Text × DiagnosticSeverity) → Text → Option DiagnosticSeverity
get [] code = none
get ((pattern, severity) ∷ rest) code =
    if text_eq pattern code then some severity else get rest code

-- A longer pattern is more specific.
abbrev pub better :
    Option (Text × DiagnosticSeverity)
    → Text
    → DiagnosticSeverity
    → Option (Text × DiagnosticSeverity)
better none pattern severity = some (pattern, severity)
better (some (existing_pattern, existing)) pattern severity =
    if ltb (byte_len existing_pattern) (byte_len pattern)
    then some (pattern, severity)
    else some (existing_pattern, existing)

-- The loop over the patterns.
unfoldable pub best_match :
    List (Text × DiagnosticSeverity)
    → Text
    → Option (Text × DiagnosticSeverity)
    → Option (Text × DiagnosticSeverity)
best_match [] code best = best
best_match ((pattern, severity) ∷ rest) code best =
    best_match rest code (if starts_with code pattern then better best pattern severity else best)

abbrev pub severity_or_error : Option (Text × DiagnosticSeverity) → DiagnosticSeverity
severity_or_error none = DiagnosticSeverity.error
severity_or_error (some (pattern, severity)) = severity

unfoldable pub get_severity : DiagnosticsConfig → Text → DiagnosticSeverity
get_severity config code = elim (get config.severity code) [
  | some severity ↦ severity
  | none ↦ severity_or_error (best_match config.severity code none)
]

-- `HashMap::insert`: the value of a key that is there is replaced.
abbrev pub insert :
    List (Text × DiagnosticSeverity) → Text → DiagnosticSeverity → List (Text × DiagnosticSeverity)
insert [] code severity = (code, severity) ∷ []
insert ((pattern, old) ∷ rest) code severity =
    let later = insert rest code severity in
    if text_eq pattern code then (pattern, severity) ∷ rest else (pattern, old) ∷ later

unfoldable pub set_severity : DiagnosticsConfig → Text → DiagnosticSeverity → DiagnosticsConfig
set_severity config code severity = record { severity = insert config.severity code severity }
