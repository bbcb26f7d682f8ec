-- ===== src/Conf/Diagnostics/Best.antt =====
-- The longest matching pattern in crates/djls-conf/src/diagnostics.rs.
use django_language_server.Base.{
  ℕ, ◌≤◌, true, false, ltb, ◌≡◌, refl, sym, ap, ◌⊎◌, inl, inr, Option, none, some, List, [], ◌∷◌,
  arith, Bool-cases,
}
use django_language_server.Base.Text.{Text, byte_len, len_utf8, text_eq, starts_with}
use django_language_server.Base.Text.Slices.{text_eq_iff, len_utf8_pos}
use django_language_server.Conf.Diagnostics.{DiagnosticSeverity, get, best_match}

abbrev pub Entries : Type 0
Entries = List (Text × DiagnosticSeverity)

abbrev pub Has : Entries → Text → DiagnosticSeverity → Type 0
Has [] p s = ⊥
Has ((q, t) ∷ rest) p s = ((q ≡ p) × (t ≡ s)) ⊎ Has rest p s

-- No key has two values.
abbrev pub IsMap : Entries → Type 0
IsMap entries = (p : Text) (s t : DiagnosticSeverity) → Has entries p s → Has entries p t → s ≡ t

-- The severity of the code itself, or else of its longest prefix, or else `error`.
pub data Resolves (entries : Entries) (code : Text) : DiagnosticSeverity → Type 0 where
  exact : {s : DiagnosticSeverity} → Has entries code s → Resolves entries code s
  longest :
      {s : DiagnosticSeverity} (p : Text)
      → ((t : DiagnosticSeverity) → Has entries code t → ⊥)
      → Has entries p s
      → starts_with code p ≡ true
      → ((q : Text) (t : DiagnosticSeverity)
          → Has entries q t
          → starts_with code q ≡ true
          → byte_len q ≤ byte_len p)
      → Resolves entries code s
  otherwise :
      ((t : DiagnosticSeverity) → Has entries code t → ⊥)
      → ((q : Text) (t : DiagnosticSeverity) → Has entries q t → starts_with code q ≡ false)
      → Resolves entries code DiagnosticSeverity.error

pub get-some :
    (entries : Entries) (code : Text) (s : DiagnosticSeverity)
    → get entries code ≡ some s
    → Has entries code s
get-some [] code s e = cc
get-some ((p, t) ∷ rest) code s e = elim (Bool-cases (text_eq p code)) [
  | inl here ↦ inl ((text_eq_iff p code).0 here, ground (arith, e, here))
  | inr other ↦ inr (get-some rest code s (ground (arith, e, other)))
]

pub get-none :
    (entries : Entries) (code : Text)
    → get entries code ≡ none
    → (t : DiagnosticSeverity) → Has entries code t
    → ⊥
get-none [] code e t h = h
get-none ((p, s) ∷ rest) code e t h = elim (Bool-cases (text_eq p code)) [
  | inl here ↦ ground (arith, e, here)
  | inr other ↦ elim h [
    | inl both ↦ ground (arith, (text_eq_iff p code).1 both.0, other)
    | inr later ↦ get-none rest code (ground (arith, e, other)) t later
  ]
]

-- What the loop finds, from the best match so far.
pub data Finds (entries : Entries) (code : Text) (best : Option (Text × DiagnosticSeverity))
    : Option (Text × DiagnosticSeverity) → Type 0 where
  nothing :
      best ≡ none
      → ((q : Text) (t : DiagnosticSeverity) → Has entries q t → starts_with code q ≡ false)
      → Finds entries code best none
  something :
      (p : Text) (s : DiagnosticSeverity)
      → (Has entries p s × (starts_with code p ≡ true)) ⊎ (best ≡ some (p, s))
      → ((q : Text) (t : DiagnosticSeverity)
          → Has entries q t
          → starts_with code q ≡ true
          → byte_len q ≤ byte_len p)
      → ((q : Text) (t : DiagnosticSeverity) → best ≡ some (q, t) → byte_len q ≤ byte_len p)
      → Finds entries code best (some (p, s))

-- Two prefixes of one length are one prefix.
pub prefix_unique :
    (code p q : Text)
    → starts_with code p ≡ true
    → starts_with code q ≡ true
    → byte_len p ≡ byte_len q
    → p ≡ q
unfolding starts_with
prefix_unique code [] [] hp hq e = refl
prefix_unique code [] (c ∷ q) hp hq e = absurd (omega (arith, len_utf8_pos c, e))
prefix_unique code (c ∷ p) [] hp hq e = absurd (omega (arith, len_utf8_pos c, e))
prefix_unique [] (a ∷ p) (b ∷ q) hp hq e = cc
prefix_unique (c ∷ code) (a ∷ p) (b ∷ q) hp hq e =
    let head : a ≡ b = ground (arith, hp, hq) in
    let len : byte_len p ≡ byte_len q = omega (arith, e, ap (λ (x : ℕ). len_utf8 x) head) in
    let tail = prefix_unique code p q (ground (arith, hp)) (ground (arith, hq)) len in
    cc (head, tail)

-- A match that is passed over.
Finds-past :
    (p : Text) (s : DiagnosticSeverity) (rest : Entries) (code : Text)
    (best r : Option (Text × DiagnosticSeverity))
    → starts_with code p ≡ false
    → Finds rest code best r
    → Finds ((p, s) ∷ rest) code best r
Finds-past p s rest code best r past (nothing e none_match) =
    nothing e
      (λ q t has. elim has [ inl both ↦ rw (sym both.0) past | inr later ↦ none_match q t later ])
Finds-past p s rest code best r past (something q t from longer beats) =
    something q t (elim from [ inl here ↦ inl (inr here.0, here.1) | inr old ↦ inr old ])
      (λ x y has st. elim has [
        | inl both ↦ cc (ap (λ (u : Text). starts_with code u) both.0, past, st)
        | inr later ↦ longer x y later st
      ])
      beats

-- A match that becomes the best, since it is longer than the best so far.
Finds-new :
    (p : Text) (s : DiagnosticSeverity) (rest : Entries) (code : Text)
    (best r : Option (Text × DiagnosticSeverity))
    → starts_with code p ≡ true
    → ((q : Text) (t : DiagnosticSeverity) → best ≡ some (q, t) → byte_len q ≤ byte_len p)
    → Finds rest code (some (p, s)) r
    → Finds ((p, s) ∷ rest) code best r
Finds-new p s rest code best r here longest_yet (nothing e none_match) = cc
Finds-new p s rest code best r here longest_yet (something q t from longer beats) =
    let mine = beats p s refl in
    something q t
      (elim from [
        | inl later ↦ inl (inr later.0, later.1)
        | inr same ↦
            let p_q : p ≡ q = cc in let s_t : s ≡ t = cc in inl (inl (p_q, s_t), rw p_q at here)
      ])
      (λ x y has st. elim has [
        | inl both ↦ omega (arith, ap (λ (u : Text). byte_len u) both.0, mine)
        | inr later ↦ longer x y later st
      ])
      (λ x y e. omega (arith, longest_yet x y e, mine))

-- A match that is no longer than the best so far.
Finds-kept :
    (p : Text) (s : DiagnosticSeverity) (rest : Entries) (code : Text) (q0 : Text)
    (t0 : DiagnosticSeverity) (r : Option (Text × DiagnosticSeverity))
    → byte_len p ≤ byte_len q0
    → Finds rest code (some (q0, t0)) r
    → Finds ((p, s) ∷ rest) code (some (q0, t0)) r
Finds-kept p s rest code q0 t0 r shorter (nothing e none_match) = cc
Finds-kept p s rest code q0 t0 r shorter (something q t from longer beats) =
    let old = beats q0 t0 refl in
    something q t (elim from [ inl later ↦ inl (inr later.0, later.1) | inr same ↦ inr same ])
      (λ x y has st. elim has [
        | inl both ↦ omega (arith, ap (λ (u : Text). byte_len u) both.0, old, shorter)
        | inr later ↦ longer x y later st
      ])
      beats

pub best_match-Finds :
    (entries : Entries) (code : Text) (best : Option (Text × DiagnosticSeverity))
    → Finds entries code best (best_match entries code best)
unfolding best_match
best_match-Finds [] code none = nothing refl (λ q t h. absurd h)
best_match-Finds [] code (some (p, s)) =
    something p s (inr refl) (λ q t h st. absurd h)
      (λ q t e. let same : p ≡ q = cc in omega (arith, ap (λ (u : Text). byte_len u) same))
best_match-Finds ((p, s) ∷ rest) code none = elim (Bool-cases (starts_with code p)) [
  | inr past ↦
      rw (past, best_match)
        (Finds-past p s rest code none (best_match rest code none) past
          (best_match-Finds rest code none))
  | inl here ↦
      rw (here, best_match)
        (Finds-new p s rest code none (best_match rest code (some (p, s))) here (λ q t e. cc)
          (best_match-Finds rest code (some (p, s))))
]
best_match-Finds ((p, s) ∷ rest) code (some (q0, t0)) = elim (Bool-cases (starts_with code p)) [
  | inr past ↦
      rw (past, best_match)
        (Finds-past p s rest code (some (q0, t0)) (best_match rest code (some (q0, t0))) past
          (best_match-Finds rest code (some (q0, t0))))
  | inl here ↦ elim (Bool-cases (ltb (byte_len q0) (byte_len p))) [
    | inl more ↦
        rw (here, more, best_match)
          (Finds-new p s rest code (some (q0, t0)) (best_match rest code (some (p, s))) here
            (λ q t e.
              let same : q0 ≡ q = cc in ground (arith, ap (λ (u : Text). byte_len u) same, more))
            (best_match-Finds rest code (some (p, s))))
    | inr less ↦
        rw (here, less, best_match)
          (Finds-kept p s rest code q0 t0 (best_match rest code (some (q0, t0)))
            (ground (arith, less)) (best_match-Finds rest code (some (q0, t0))))
  ]
]
