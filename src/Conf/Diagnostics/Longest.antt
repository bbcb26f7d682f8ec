-- ===== src/Conf/Diagnostics/Longest.antt =====
-- The severity that crates/djls-conf/src/diagnostics.rs gives a code is that of the most specific
-- pattern, whatever the order in which the map iterates.
use django_language_server.Base.{
  ◌≤◌, false, ◌≡◌, ◌↔◌, refl, inl, inr, Option, none, some, [], ◌∷◌, arith, Bool-cases,
  Option-cases,
}
use django_language_server.Base.Text.{Text, byte_len, text_eq}
use django_language_server.Base.Text.Slices.{text_eq_iff}
use django_language_server.Conf.Diagnostics.{
  DiagnosticSeverity, DiagnosticsConfig, get, best_match, severity_or_error, get_severity, insert,
  set_severity,
}
use django_language_server.Conf.Diagnostics.Best.{
  Entries, Has, IsMap, Resolves, get-some, get-none, Finds, prefix_unique, best_match-Finds, exact,
  longest, otherwise, nothing, something,
}

resolved :
    (entries : Entries) (code : Text) (r : Option (Text × DiagnosticSeverity))
    → ((t : DiagnosticSeverity) → Has entries code t → ⊥)
    → Finds entries code none r
    → Resolves entries code (severity_or_error r)
resolved entries code r no_exact (nothing e none_match) = otherwise no_exact none_match
resolved entries code r no_exact (something p s (inl (has, st)) longer beats) =
    longest p no_exact has st longer
resolved entries code r no_exact (something p s (inr e) longer beats) = cc

get_severity-Resolves :
    (config : DiagnosticsConfig) (code : Text)
    → Resolves config.severity code (get_severity config code)
unfolding get_severity
get_severity-Resolves config code = elim (Option-cases (get config.severity code)) [
  | inl missing ↦
      rw (missing, get_severity)
        (resolved config.severity code (best_match config.severity code none)
          (get-none config.severity code missing) (best_match-Finds config.severity code none))
  | inr (s, found) ↦ rw (found, get_severity) (exact (get-some config.severity code s found))
]

-- Two maps with the same entries resolve a code to the same severity.
Resolves-unique :
    (xs ys : Entries) (code : Text) (s t : DiagnosticSeverity)
    → IsMap ys
    → ((p : Text) (u : DiagnosticSeverity) → Has xs p u ↔ Has ys p u)
    → Resolves xs code s
    → Resolves ys code t
    → s ≡ t
Resolves-unique xs ys code s t map same (exact h) (exact k) = map code s t ((same code s).0 h) k
Resolves-unique xs ys code s t map same (exact h) (longest q no_exact has st longer) =
    absurd (no_exact s ((same code s).0 h))
Resolves-unique xs ys code s t map same (exact h) (otherwise no_exact none_match) =
    absurd (no_exact s ((same code s).0 h))
Resolves-unique xs ys code s t map same (longest p no_exact has st longer) (exact k) =
    absurd (no_exact t ((same code t).1 k))
Resolves-unique xs ys code s t map same (otherwise no_exact none_match) (exact k) =
    absurd (no_exact t ((same code t).1 k))
Resolves-unique xs ys code s t map same (longest p no_exact has st longer)
      (otherwise no_exact' none_match) =
    cc (none_match p s ((same p s).0 has), st)
Resolves-unique xs ys code s t map same (otherwise no_exact none_match)
      (longest q no_exact' has st longer) =
    cc (none_match q t ((same q t).1 has), st)
Resolves-unique xs ys code s t map same (otherwise no_exact none_match)
      (otherwise no_exact' none_match') =
    refl
Resolves-unique xs ys code s t map same (longest p no_exact has st longer)
      (longest q no_exact' has' st' longer') =
    let p_q : byte_len p ≤ byte_len q = longer' p s ((same p s).0 has) st in
    let q_p : byte_len q ≤ byte_len p = longer q t ((same q t).1 has') st' in
    let e : p ≡ q = prefix_unique code p q st st' (omega (arith, p_q, q_p)) in
    map q s t (rw e at ((same p s).0 has)) has'

-- A code has the severity of the entry for the code itself, or else of the entry for its longest
-- prefix, or else `error`; and two maps with the same entries, none of them with two values for a
-- key, give it the same severity, in whatever order they iterate.
pub get_severity_lem :
    (config other : DiagnosticsConfig) (code : Text)
    → IsMap other.severity
    → ((p : Text) (s : DiagnosticSeverity) → Has config.severity p s ↔ Has other.severity p s)
    → Resolves config.severity code (get_severity config code)
      × (get_severity config code ≡ get_severity other code)
get_severity_lem config other code map same =
    let resolves = get_severity-Resolves config code in
    (
      resolves,
      Resolves-unique config.severity other.severity code (get_severity config code)
          (get_severity other code) map same resolves (get_severity-Resolves other code),
    )

insert-get :
    (entries : Entries) (code : Text) (s : DiagnosticSeverity)
    → get (insert entries code s) code ≡ some s
insert-get [] code s = let self = (text_eq_iff code code).1 refl in rw (self, get) refl
insert-get ((p, t) ∷ rest) code s = elim (Bool-cases (text_eq p code)) [
  | inl here ↦ rw (here, insert, here, get) refl
  | inr other ↦ rw (other, insert, other, get) (insert-get rest code s)
]

insert-other :
    (entries : Entries) (code key : Text) (s : DiagnosticSeverity)
    → text_eq code key ≡ false
    → get (insert entries code s) key ≡ get entries key
insert-other [] code key s e = rw (e, get) refl
insert-other ((p, t) ∷ rest) code key s e = elim (Bool-cases (text_eq p code)) [
  | inl here ↦
      let same : p ≡ code = (text_eq_iff p code).0 here in
      let past : text_eq p key ≡ false = rw same e in rw (here, insert, past, get) refl
  | inr other ↦ let later = insert-other rest code key s e in ground (arith, other, later)
]

-- The severity that is set for a code is the one that the code then has, and the entry of every
-- other key stays.
pub set_severity_lem :
    (config : DiagnosticsConfig) (code : Text) (s : DiagnosticSeverity)
    → (get_severity (set_severity config code s) code ≡ s)
      × ((key : Text)
          → text_eq code key ≡ false
          → get (set_severity config code s).severity key ≡ get config.severity key)
unfolding get_severity set_severity
set_severity_lem config code s = (
  rw (insert-get config.severity code s, get_severity) refl,
  λ key e. insert-other config.severity code key s e,
)
