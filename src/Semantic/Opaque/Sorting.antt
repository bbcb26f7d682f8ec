-- ===== src/Semantic/Opaque/Sorting.antt =====
-- The sorted spans of crates/djls-semantic/src/structure/opaque.rs: spans that lie apart follow one another.
use django_language_server.Base.{
  ◌≤◌, ◌<◌, Bool, true, false, ◌||◌, ◌≡◌, ◌⊎◌, refl, ◌∙◌, leb, List, [], ◌∷◌, any, All, arith,
  Bool-cases, inl, inr,
}
use django_language_server.Source.Position.{Span, span_end}
use django_language_server.Semantic.Opaque.{insert_span, sort_spans}

-- The first span starts before the second, and ends at or before its start.
abbrev pub Precedes : Span → Span → Type 0
Precedes a b = (a.start < b.start) × (span_end a ≤ b.start)

abbrev pub Apart : Span → Span → Type 0
Apart a b = Precedes a b ⊎ Precedes b a

-- Any two of the spans lie apart.
abbrev pub AllApart : List Span → Type 0
AllApart [] = Unit
AllApart (a ∷ spans) = All (Apart a) spans × AllApart spans

abbrev pub InSequence : List Span → Type 0
InSequence [] = Unit
InSequence (a ∷ spans) = All (Precedes a) spans × InSequence spans

insert_span-All :
    (P : Span → Type 0) (a : Span) (spans : List Span)
    → P a
    → All P spans
    → All P (insert_span a spans)
insert_span-All P a [] p all = (p, tt)
insert_span-All P a (b ∷ spans) p all = elim (Bool-cases (leb a.start b.start)) [
  | inl e ↦ rw (e, insert_span) (p, all)
  | inr e ↦ rw (e, insert_span) (all.0, insert_span-All P a spans p all.1)
]

sort_spans-All : (P : Span → Type 0) (spans : List Span) → All P spans → All P (sort_spans spans)
sort_spans-All P [] all = tt
sort_spans-All P (a ∷ spans) all =
    insert_span-All P a (sort_spans spans) all.0 (sort_spans-All P spans all.1)

Precedes-All :
    (a b : Span) (spans : List Span)
    → Precedes a b
    → All (Precedes b) spans
    → All (Precedes a) spans
Precedes-All a b [] h all = tt
Precedes-All a b (c ∷ spans) h all =
    ((omega (arith, h, all.0), omega (arith, h, all.0)), Precedes-All a b spans h all.1)

insert_span-InSequence :
    (a : Span) (spans : List Span)
    → All (Apart a) spans
    → InSequence spans
    → InSequence (insert_span a spans)
insert_span-InSequence a [] apart sequence = (tt, tt)
insert_span-InSequence a (b ∷ spans) apart sequence = elim (Bool-cases (leb a.start b.start)) [
  | inl e ↦
      let first : Precedes a b = elim apart.0 [
        | inl h ↦ h
        | inr h ↦ absurd (ground (arith, e, h))
      ] in
      rw (e, insert_span) ((first, Precedes-All a b spans first sequence.0), sequence)
  | inr e ↦
      let first : Precedes b a = elim apart.0 [
        | inl h ↦ absurd (ground (arith, e, h))
        | inr h ↦ h
      ] in
      rw (e, insert_span)
        (
          insert_span-All (Precedes b) a spans first sequence.0,
          insert_span-InSequence a spans apart.1 sequence.1,
        )
]

pub sort_spans-InSequence : (spans : List Span) → AllApart spans → InSequence (sort_spans spans)
sort_spans-InSequence [] apart = tt
sort_spans-InSequence (a ∷ spans) (first, apart) =
    insert_span-InSequence a (sort_spans spans) (sort_spans-All (Apart a) spans first)
      (sort_spans-InSequence spans apart)

||-swap : (x y z : Bool) → (x || (y || z)) ≡ (y || (x || z))
||-swap true true z = refl
||-swap true false z = refl
||-swap false y z = refl

any-insert_span :
    (p : Span → Bool) (a : Span) (spans : List Span)
    → any p (insert_span a spans) ≡ (p a || any p spans)
any-insert_span p a [] = refl
any-insert_span p a (b ∷ spans) = elim (Bool-cases (leb a.start b.start)) [
  | inl e ↦ rw (e, insert_span) refl
  | inr e ↦ rw (e, insert_span) (rw (any-insert_span p a spans) (||-swap (p b) (p a) (any p spans)))
]

pub any-sort_spans : (p : Span → Bool) (spans : List Span) → any p (sort_spans spans) ≡ any p spans
any-sort_spans p [] = refl
any-sort_spans p (a ∷ spans) =
    any-insert_span p a (sort_spans spans) ∙ rw (any-sort_spans p spans) refl
