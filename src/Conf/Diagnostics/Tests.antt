-- ===== src/Conf/Diagnostics/Tests.antt =====
-- Runs of crates/djls-conf/src/diagnostics.rs.
use django_language_server.Base.{◌≡◌, ◌↔◌, refl, sym, ◌∙◌, [], ◌∷◌, inl, inr, false}
use django_language_server.Base.Text.{Text, text_eq, text, text_eq, starts_with, len_utf8}
use django_language_server.Conf.Diagnostics.{
  DiagnosticSeverity, off, warning, hint, DiagnosticsConfig, get_severity, set_severity, get,
  best_match,
}
use django_language_server.Conf.Diagnostics.Longest.{get_severity_lem, set_severity_lem}
use django_language_server.Conf.Diagnostics.Best.{Has, IsMap, Resolves}

abbrev one_way : DiagnosticsConfig
one_way = record { severity = (text "T", off) ∷ (text "T1", hint) ∷ [] }

abbrev other_way : DiagnosticsConfig
other_way = record { severity = (text "T1", hint) ∷ (text "T", off) ∷ [] }

longest_wins : get_severity one_way (text "T100") ≡ hint
unfolding get_severity text_eq best_match starts_with len_utf8
longest_wins = refl

swapped :
    (p : Text) (s : DiagnosticSeverity) → Has one_way.severity p s ↔ Has other_way.severity p s
swapped p s = (swap, swap_back)
  where
    swap : Has one_way.severity p s → Has other_way.severity p s
    swap (inl h) = inr (inl h)
    swap (inr (inl h)) = inl h
    swap (inr (inr h)) = absurd h

    swap_back : Has other_way.severity p s → Has one_way.severity p s
    swap_back (inl h) = inr (inl h)
    swap_back (inr (inl h)) = inl h
    swap_back (inr (inr h)) = absurd h

other_way-IsMap : IsMap other_way.severity
other_way-IsMap p s t (inl h) (inl k) = sym h.1 ∙ k.1
other_way-IsMap p s t (inr (inl h)) (inr (inl k)) = sym h.1 ∙ k.1
other_way-IsMap p s t (inl h) (inr (inl k)) = cc
other_way-IsMap p s t (inr (inl h)) (inl k) = cc
other_way-IsMap p s t (inr (inr h)) k = absurd h
other_way-IsMap p s t h (inr (inr k)) = absurd k

get_severity_lem_example :
    Resolves one_way.severity (text "T100") (get_severity one_way (text "T100"))
    × (get_severity one_way (text "T100") ≡ get_severity other_way (text "T100"))
get_severity_lem_example = get_severity_lem one_way other_way (text "T100") other_way-IsMap swapped

set_severity_lem_example :
    (get_severity (set_severity one_way (text "T100") warning) (text "T100") ≡ warning)
    × ((key : Text)
        → text_eq (text "T100") key ≡ false
        → get (set_severity one_way (text "T100") warning).severity key ≡ get one_way.severity key)
set_severity_lem_example = set_severity_lem one_way (text "T100") warning
