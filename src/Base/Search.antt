-- ===== src/Base/Search.antt =====
-- The binary search of the standard library, on indexes, and `slice::partition_point`, which it finds.
use Prim.Native.Nat.{ℕ, zero, suc, ◌+◌, ◌-◌, ◌/◌, ◌≤◌, ◌<◌}
use mathlib.Core.Path.{◌≡◌, refl}
use mathlib.Core.Logic.{◌⊎◌, inl, inr}
use mathlib.Core.Bool.{Bool, true, false}
use mathlib.Core.List.{List, [], ◌∷◌}
use native.Mathlib.Omega.{arith}
use django_language_server.Base.Tests.{ltb, if◌then◌else◌, Bool-cases}
use django_language_server.Base.Lists.{length, any}
use django_language_server.Base.Ordering.{Ordering}

-- The loop of `slice::binary_search_by`: the base that it ends with.
abbrev pub search_base : ℕ → (ℕ → Ordering) → ℕ → ℕ → ℕ
search_base zero f base size = base
search_base (suc fuel) f base size =
    let half = size / 2 in
    let low = search_base fuel f base (size - half) in
    let high = search_base fuel f (base + half) (size - half) in
    if ltb 1 size then elim (f (base + half)) [ Ordering.gt ↦ low | _ ↦ high ] else base

abbrev pub holds_at {ℓ} : {A : Type ℓ} → (A → Bool) → List A → ℕ → Bool
holds_at p [] i = false
holds_at p (x ∷ xs) zero = p x
holds_at p (x ∷ xs) (suc i) = holds_at p xs i

abbrev pub order_of : Bool → Ordering
order_of true = Ordering.lt
order_of false = Ordering.gt

-- `slice::partition_point`: `binary_search_by` with `Less` where the test holds, and `Greater` elsewhere.
abbrev pub partition_point {ℓ} : {A : Type ℓ} → (A → Bool) → List A → ℕ
partition_point p xs =
    let n = length xs in
    let base = search_base n (λ i. order_of (holds_at p xs i)) 0 n in
    if ltb 0 n then (if holds_at p xs base then base + 1 else base) else 0

-- The elements before the first at which the test fails.
abbrev pub leading {ℓ} : {A : Type ℓ} → (A → Bool) → List A → ℕ
leading p [] = 0
leading p (x ∷ xs) = let rest = leading p xs in if p x then suc rest else 0

-- The test fails at every element behind one at which it fails.
abbrev pub Partitioned {ℓ} : {A : Type ℓ} → (A → Bool) → List A → Type 0
Partitioned p [] = Unit
Partitioned p (x ∷ xs) = (p x ≡ false → any p xs ≡ false) × Partitioned p xs

search_base-partition :
    (fuel : ℕ) (f : ℕ → Ordering) (n t base size : ℕ)
    → ((i : ℕ) → i < t → f i ≡ Ordering.lt)
    → ((i : ℕ) → t ≤ i → i < n → f i ≡ Ordering.gt)
    → size ≤ fuel
    → 0 < size
    → base + size ≤ n
    → (base < t) ⊎ (base ≡ 0)
    → t ≤ base + size
    → (search_base fuel f base size + 1 ≡ t) ⊎ ((search_base fuel f base size ≡ 0) × (t ≡ 0))
search_base-partition zero f n t base size below above small some inside lo hi =
    absurd (omega (arith, small, some))
search_base-partition (suc fuel) f n t base size below above small some inside lo hi =
    elim (Bool-cases (ltb 1 size)) [
      | inl e ↦
          let big : 1 < size = ground (arith, e) in
          let half = size / 2 in
          elim (Bool-cases (ltb (base + half) t)) [
            | inl before ↦
                let h : base + half < t = ground (arith, before) in
                rw (e, search_base, below (base + half) h)
                  (search_base-partition fuel f n t (base + half) (size - half) below above
                    (omega (arith, small, big)) (omega (arith, big)) (omega (arith, inside, big))
                    (inl h) (omega (arith, hi, big)))
            | inr behind ↦
                let h : t ≤ base + half = ground (arith, behind) in
                rw (e, search_base, above (base + half) h (omega (arith, inside, big)))
                  (search_base-partition fuel f n t base (size - half) below above
                    (omega (arith, small, big)) (omega (arith, big)) (omega (arith, inside, big)) lo
                    (omega (arith, h, big)))
          ]
      | inr e ↦
          rw (e, search_base)
            (elim lo [
              | inl before ↦ inl (ground (arith, e, some, before, hi))
              | inr first ↦ elim (Bool-cases (ltb 0 t)) [
                | inl one ↦ inl (ground (arith, e, some, first, hi, one))
                | inr none ↦ inr (first, ground (arith, none))
              ]
            ])
    ]

holds_at_below {ℓ} :
    {A : Type ℓ} (p : A → Bool) (xs : List A) (i : ℕ) → i < leading p xs → holds_at p xs i ≡ true
holds_at_below p [] i h = absurd (omega (arith, h))
holds_at_below p (x ∷ xs) zero h = ground (arith, h)
holds_at_below p (x ∷ xs) (suc i) h = holds_at_below p xs i (ground (arith, h))

holds_at_none {ℓ} :
    {A : Type ℓ} (p : A → Bool) (xs : List A) (i : ℕ) → any p xs ≡ false → holds_at p xs i ≡ false
holds_at_none p [] i h = refl
holds_at_none p (x ∷ xs) zero h = ground (arith, h)
holds_at_none p (x ∷ xs) (suc i) h = holds_at_none p xs i (ground (arith, h))

holds_at_behind {ℓ} :
    {A : Type ℓ} (p : A → Bool) (xs : List A) (i : ℕ)
    → Partitioned p xs
    → leading p xs ≤ i
    → holds_at p xs i ≡ false
holds_at_behind p [] i parts h = refl
holds_at_behind p (x ∷ xs) zero parts h = ground (arith, h)
holds_at_behind p (x ∷ xs) (suc i) parts h = elim (Bool-cases (p x)) [
  | inl e ↦ holds_at_behind p xs i parts.1 (ground (arith, h, e))
  | inr e ↦ holds_at_none p xs i (parts.0 e)
]

leading-le {ℓ} : {A : Type ℓ} (p : A → Bool) (xs : List A) → leading p xs ≤ length xs
leading-le p [] = omega arith
leading-le p (x ∷ xs) = ground (arith, leading-le p xs)

-- On a list that is partitioned, it is the number of the elements at which the test holds.
pub partition_point_lem {ℓ} :
    {A : Type ℓ} (p : A → Bool) (xs : List A)
    → Partitioned p xs
    → partition_point p xs ≡ leading p xs
partition_point_lem p [] parts = refl
partition_point_lem p (x ∷ xs) parts =
    let all = x ∷ xs in
    let n = length all in
    let t = leading p all in
    let f = λ (i : ℕ). order_of (holds_at p all i) in
    let small = leading-le p all in
    let below : (i : ℕ) → i < t → f i ≡ Ordering.lt = λ i h. rw (holds_at_below p all i h) refl in
    let above : (i : ℕ) → t ≤ i → i < n → f i ≡ Ordering.gt =
      λ i h k. rw (holds_at_behind p all i parts h) refl in
    let some_element : ltb 0 n ≡ true = ground arith in
    elim (search_base-partition n f n t 0 n below above (omega arith) (omega arith) (omega arith)
      (inr refl) (omega (arith, small))) [
        | inl e ↦ rw (some_element, holds_at_below p all (search_base n f 0 n) (omega (arith, e))) e
        | inr (e, zero_t) ↦
            rw
              (
                some_element,
                holds_at_behind p all (search_base n f 0 n) parts (omega (arith, e, zero_t)),
              )
              (omega (arith, e, zero_t))
      ]
