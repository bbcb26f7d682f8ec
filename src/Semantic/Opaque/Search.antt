-- ===== src/Semantic/Opaque/Search.antt =====
-- The binary search of crates/djls-semantic/src/structure/opaque.rs finds the span that holds an offset.
use django_language_server.Base.{
  ℕ, zero, suc, ◌+◌, ◌-◌, ◌/◌, ◌≤◌, ◌<◌, Bool, true, ◌≡◌, refl, sym, ◌∙◌, ltb, leb, List, [], ◌∷◌,
  any, All, length, arith, Bool-cases, inl, inr,
}
use django_language_server.Base.Ordering.{Ordering, Ordering-cases}
use django_language_server.Base.Search.{search_base}
use django_language_server.Source.Position.{Span, contains}
use django_language_server.Semantic.Tree.{Regions}
use django_language_server.Semantic.Opaque.{
  sort_spans, compare_position, span_at, is_ok_at, is_opaque, bodies_of, opaque_regions_from_tree,
}
use django_language_server.Semantic.Opaque.Sorting.{
  Precedes, AllApart, InSequence, sort_spans-InSequence, any-sort_spans,
}

search_base_within :
    (fuel : ℕ) (f : ℕ → Ordering) (base size : ℕ)
    → 0 < size
    → (base ≤ search_base fuel f base size) × (search_base fuel f base size < base + size)
search_base_within zero f base size h = (omega arith, omega (arith, h))
search_base_within (suc fuel) f base size h = elim (Bool-cases (ltb 1 size)) [
  | inl e ↦
      let rest : 0 < size - size / 2 = ground (arith, e) in
      let low = search_base_within fuel f base (size - size / 2) rest in
      let high = search_base_within fuel f (base + size / 2) (size - size / 2) rest in
      elim (Ordering-cases (f (base + size / 2))) [
        | inl c ↦ rw (e, search_base, c) (omega (arith, high), omega (arith, high, rest))
        | inr (inl c) ↦ rw (e, search_base, c) (omega (arith, high), omega (arith, high, rest))
        | inr (inr c) ↦ rw (e, search_base, c) (omega (arith, low), omega (arith, low, rest))
      ]
  | inr e ↦ rw (e, search_base) (omega arith, omega (arith, h))
]

-- One index compares equal, those before it less and those behind it greater.
record Splits (f : ℕ → Ordering) (n t : ℕ) : Type 0 where
  hit : f t ≡ Ordering.eq
  below : (i : ℕ) → i < t → f i ≡ Ordering.lt
  above : (i : ℕ) → t < i → i < n → f i ≡ Ordering.gt

search_base-hit :
    (fuel : ℕ) (f : ℕ → Ordering) (n t base size : ℕ)
    → Splits f n t
    → size ≤ fuel
    → base ≤ t
    → t < base + size
    → base + size ≤ n
    → search_base fuel f base size ≡ t
search_base-hit zero f n t base size splits small lo hi inside =
    absurd (omega (arith, small, lo, hi))
search_base-hit (suc fuel) f n t base size splits small lo hi inside =
    elim (Bool-cases (ltb 1 size)) [
      | inl e ↦
          let big : 1 < size = ground (arith, e) in
          let half = size / 2 in
          let upper : base + half ≤ t → search_base fuel f (base + half) (size - half) ≡ t = λ h.
            search_base-hit fuel f n t (base + half) (size - half) splits
              (omega (arith, small, big)) h (omega (arith, hi, big)) (omega (arith, inside, big)) in
          let lower : t < base + half → search_base fuel f base (size - half) ≡ t = λ h.
            search_base-hit fuel f n t base (size - half) splits (omega (arith, small, big)) lo
              (omega (arith, h, big)) (omega (arith, inside, big)) in
          elim (Bool-cases (leb (base + half) t)) [
            | inl at_or_behind ↦
                let h : base + half ≤ t = ground (arith, at_or_behind) in
                elim (Bool-cases (ltb (base + half) t)) [
                  | inl before ↦
                      rw (e, search_base, splits.below (base + half) (ground (arith, before)))
                        (upper h)
                  | inr at ↦
                      let same : t ≡ base + half = ground (arith, at, h) in
                      let c : f (base + half) ≡ Ordering.eq = rw (sym same) splits.hit in
                      rw (e, search_base, c) (upper h)
                ]
            | inr behind ↦
                let h : t < base + half = ground (arith, behind) in
                rw (e, search_base, splits.above (base + half) h (omega (arith, inside, big)))
                  (lower h)
          ]
      | inr e ↦ rw (e, search_base) (ground (arith, e, lo, hi))
    ]

compare_position_eq :
    (position : ℕ) (span : Span)
    → contains span position ≡ is_ok_at (compare_position position span)
unfolding contains
compare_position_eq position span = ground arith

any-span_at :
    (p : Span → Bool) (spans : List Span) (i : ℕ)
    → i < length spans
    → p (span_at spans i) ≡ true
    → any p spans ≡ true
any-span_at p [] i h e = absurd (omega (arith, h))
any-span_at p (a ∷ spans) zero h e = rw e refl
any-span_at p (a ∷ spans) (suc i) h e = ground (arith, any-span_at p spans i (omega (arith, h)) e)

span_at-any :
    (p : Span → Bool) (spans : List Span)
    → any p spans ≡ true
    → (t : ℕ) × (t < length spans) × (p (span_at spans t) ≡ true)
span_at-any p [] e = cc
span_at-any p (a ∷ spans) e = elim (Bool-cases (p a)) [
  | inl here ↦ (0, omega arith, here)
  | inr there ↦ let (t, h, f) = span_at-any p spans (rw there at e) in (suc t, omega (arith, h), f)
]

span_at-All :
    (P : Span → Type 0) (spans : List Span) (i : ℕ)
    → All P spans
    → i < length spans
    → P (span_at spans i)
span_at-All P [] i all h = absurd (omega (arith, h))
span_at-All P (a ∷ spans) zero all h = all.0
span_at-All P (a ∷ spans) (suc i) all h = span_at-All P spans i all.1 (omega (arith, h))

span_at-Precedes :
    (spans : List Span) (i j : ℕ)
    → InSequence spans
    → i < j
    → j < length spans
    → Precedes (span_at spans i) (span_at spans j)
span_at-Precedes [] i j sequence h k = absurd (omega (arith, k))
span_at-Precedes (a ∷ spans) i zero sequence h k = absurd (omega (arith, h))
span_at-Precedes (a ∷ spans) zero (suc j) sequence h k =
    span_at-All (Precedes a) spans j sequence.0 (omega (arith, k))
span_at-Precedes (a ∷ spans) (suc i) (suc j) sequence h k =
    span_at-Precedes spans i j sequence.1 (omega (arith, h)) (omega (arith, k))

spans-Splits :
    (position : ℕ) (spans : List Span) (t : ℕ)
    → InSequence spans
    → t < length spans
    → contains (span_at spans t) position ≡ true
    → Splits (λ i. compare_position position (span_at spans i)) (length spans) t
unfolding contains
spans-Splits position spans t sequence small inside = record {
  hit = ground (arith, inside);
  below = λ i h. let p = span_at-Precedes spans i t sequence h small in ground (arith, inside, p);
  above = λ i h k. let p = span_at-Precedes spans t i sequence h k in ground (arith, inside, p);
}

is_opaque-sequence :
    (position : ℕ) (spans : List Span)
    → InSequence spans
    → is_opaque (record { spans = spans }) position ≡ any (λ s. contains s position) spans
unfolding is_opaque
is_opaque-sequence position spans sequence =
    let n = length spans in
    let f = λ (i : ℕ). compare_position position (span_at spans i) in
    elim (Bool-cases (any (λ s. contains s position) spans)) [
      | inl e ↦
          let (t, small, inside) = span_at-any (λ s. contains s position) spans e in
          let splits = spans-Splits position spans t sequence small inside in
          let found : search_base n f 0 n ≡ t =
            search_base-hit n f n t 0 n splits (omega arith) (omega arith) (omega (arith, small))
              (omega arith) in
          let some_span : ltb 0 n ≡ true = ground (arith, small) in
          rw (e, some_span, found, splits.hit) refl
      | inr e ↦ elim (Bool-cases (ltb 0 n)) [
        | inl some_span ↦ elim (Bool-cases (is_ok_at (f (search_base n f 0 n)))) [
          | inl hit ↦
              let (lo, hi) = search_base_within n f 0 n (ground (arith, some_span)) in
              let all =
                any-span_at (λ s. contains s position) spans (search_base n f 0 n)
                  (omega (arith, hi))
                  (compare_position_eq position (span_at spans (search_base n f 0 n)) ∙ hit) in
              cc
          | inr miss ↦ rw (e, some_span) miss
        ]
        | inr no_span ↦ rw (e, no_span) refl
      ]
    ]

-- Of opaque bodies that lie apart, an offset is opaque exactly if one of the bodies in the tree holds it.
pub is_opaque_lem :
    (regions : Regions) (position : ℕ)
    → AllApart (bodies_of regions)
    → is_opaque (opaque_regions_from_tree regions) position
      ≡ any (λ s. contains s position) (bodies_of regions)
unfolding opaque_regions_from_tree
is_opaque_lem regions position apart =
    is_opaque-sequence position (sort_spans (bodies_of regions))
      (sort_spans-InSequence (bodies_of regions) apart)
    ∙ any-sort_spans (λ s. contains s position) (bodies_of regions)
