-- ===== src/Base/Ordering.antt =====
-- Rust's `Ordering`, the derived orders of lists and options, and what makes a comparison lawful.
use Prim.Native.Nat.{compare, Ordering}
use django_language_server.Base.{
  ℕ, ◌≡◌, refl, sym, ◌⊎◌, inl, inr, List, [], ◌∷◌, Option, none, some, arith,
}
pub use Prim.Native.Nat.{compare, Ordering}

-- `Ordering::then_with`.
abbrev pub then_with : Ordering → Ordering → Ordering
then_with Ordering.eq later = later
then_with Ordering.lt later = Ordering.lt
then_with Ordering.gt later = Ordering.gt

-- `Ordering::reverse`.
abbrev pub swap : Ordering → Ordering
swap Ordering.eq = Ordering.eq
swap Ordering.lt = Ordering.gt
swap Ordering.gt = Ordering.lt

abbrev pub list_cmp {ℓ} : {A : Type ℓ} → (A → A → Ordering) → List A → List A → Ordering
list_cmp cmp [] [] = Ordering.eq
list_cmp cmp [] (y ∷ ys) = Ordering.lt
list_cmp cmp (x ∷ xs) [] = Ordering.gt
list_cmp cmp (x ∷ xs) (y ∷ ys) = then_with (cmp x y) (list_cmp cmp xs ys)

abbrev pub option_cmp {ℓ} : {A : Type ℓ} → (A → A → Ordering) → Option A → Option A → Ordering
option_cmp cmp none none = Ordering.eq
option_cmp cmp none (some y) = Ordering.lt
option_cmp cmp (some x) none = Ordering.gt
option_cmp cmp (some x) (some y) = cmp x y

-- The comparison of a preorder in which any two values are comparable.
pub record Lawful {ℓ} (A : Type ℓ) (cmp : A → A → Ordering) : Type ℓ where
  pub swapped : (x y : A) → cmp y x ≡ swap (cmp x y)
  pub same : (x y z : A) → cmp x y ≡ Ordering.eq → cmp x z ≡ cmp y z
  pub trans : (x y z : A) → cmp x y ≡ Ordering.lt → cmp y z ≡ Ordering.lt → cmp x z ≡ Ordering.lt

pub nat-Lawful : Lawful ℕ compare
nat-Lawful = record {
  swapped = λ x y. ground arith;
  same = λ x y z e. ground arith;
  trans = λ x y z e f. ground arith;
}

pub on-Lawful {ℓ κ} :
    {A : Type ℓ} {B : Type κ} {cmp : B → B → Ordering} (f : A → B)
    → Lawful B cmp
    → Lawful A (λ x y. cmp (f x) (f y))
on-Lawful f law = record {
  swapped = λ x y. law.swapped (f x) (f y);
  same = λ x y z. law.same (f x) (f y) (f z);
  trans = λ x y z. law.trans (f x) (f y) (f z);
}

swap-swap : (a : Ordering) → swap (swap a) ≡ a
swap-swap Ordering.eq = refl
swap-swap Ordering.lt = refl
swap-swap Ordering.gt = refl

swap-then_with : (a b : Ordering) → then_with (swap a) (swap b) ≡ swap (then_with a b)
swap-then_with Ordering.eq b = refl
swap-then_with Ordering.lt b = refl
swap-then_with Ordering.gt b = refl

pub then_with-eq :
    (a b : Ordering) → then_with a b ≡ Ordering.eq → (a ≡ Ordering.eq) × (b ≡ Ordering.eq)
then_with-eq Ordering.eq b e = (refl, e)
then_with-eq Ordering.lt b e = cc
then_with-eq Ordering.gt b e = cc

then_with-lt :
    (a b : Ordering)
    → then_with a b ≡ Ordering.lt
    → (a ≡ Ordering.lt) ⊎ ((a ≡ Ordering.eq) × (b ≡ Ordering.lt))
then_with-lt Ordering.eq b e = inr (refl, e)
then_with-lt Ordering.lt b e = inl refl
then_with-lt Ordering.gt b e = cc

pub Ordering-cases : (a : Ordering) → (a ≡ Ordering.lt) ⊎ ((a ≡ Ordering.eq) ⊎ (a ≡ Ordering.gt))
Ordering-cases Ordering.lt = inl refl
Ordering-cases Ordering.eq = inr (inl refl)
Ordering-cases Ordering.gt = inr (inr refl)

module _ {ℓ} {A : Type ℓ} {cmp : A → A → Ordering} (law : Lawful A cmp) where
  pub same_right : (x y z : A) → cmp y z ≡ Ordering.eq → cmp x y ≡ cmp x z
  same_right x y z e =
      rw (law.swapped y x, law.same y z x e, law.swapped x z, swap-swap (cmp x z)) refl

  pub self_eq : (x : A) → cmp x x ≡ Ordering.eq
  self_eq x = elim (Ordering-cases (cmp x x)) [
    | inl e ↦ let s = law.swapped x x in cc
    | inr (inl e) ↦ e
    | inr (inr e) ↦ let s = law.swapped x x in cc
  ]

  pub option-Lawful : Lawful (Option A) (option_cmp cmp)
  option-Lawful = record { swapped = swapped; same = same; trans = trans }
    where
      swapped : (x y : Option A) → option_cmp cmp y x ≡ swap (option_cmp cmp x y)
      swapped none none = refl
      swapped none (some y) = refl
      swapped (some x) none = refl
      swapped (some x) (some y) = law.swapped x y

      same :
          (x y z : Option A)
          → option_cmp cmp x y ≡ Ordering.eq
          → option_cmp cmp x z ≡ option_cmp cmp y z
      same none none z e = refl
      same none (some y) z e = cc
      same (some x) none z e = cc
      same (some x) (some y) none e = refl
      same (some x) (some y) (some z) e = law.same x y z e

      trans :
          (x y z : Option A)
          → option_cmp cmp x y ≡ Ordering.lt
          → option_cmp cmp y z ≡ Ordering.lt
          → option_cmp cmp x z ≡ Ordering.lt
      trans x none none e f = cc
      trans none (some y) (some z) e f = refl
      trans none none (some z) e f = cc
      trans (some x) none z e f = cc
      trans x (some y) none e f = cc
      trans (some x) (some y) (some z) e f = law.trans x y z e f

module _ {ℓ} {A : Type ℓ} {first later : A → A → Ordering} (p : Lawful A first)
    (q : Lawful A later) where
  pub then-Lawful : Lawful A (λ x y. then_with (first x y) (later x y))
  then-Lawful = record { swapped = swapped; same = same; trans = trans }
    where
      both : A → A → Ordering
      both x y = then_with (first x y) (later x y)

      swapped :
          (x y : A) → then_with (first y x) (later y x) ≡ swap (then_with (first x y) (later x y))
      swapped x y = rw (p.swapped x y, q.swapped x y) (swap-then_with (first x y) (later x y))

      same :
          (x y z : A)
          → then_with (first x y) (later x y) ≡ Ordering.eq
          → then_with (first x z) (later x z) ≡ then_with (first y z) (later y z)
      same x y z e =
          let (f, l) = then_with-eq (first x y) (later x y) e in
          rw (p.same x y z f, q.same x y z l) refl

      trans :
          (x y z : A)
          → then_with (first x y) (later x y) ≡ Ordering.lt
          → then_with (first y z) (later y z) ≡ Ordering.lt
          → then_with (first x z) (later x z) ≡ Ordering.lt
      trans x y z e f = elim (then_with-lt (first x y) (later x y) e) [
        | inl xy ↦ elim (then_with-lt (first y z) (later y z) f) [
          | inl yz ↦ rw (p.trans x y z xy yz) refl
          | inr (yz, _) ↦ rw (sym (same_right p x y z yz), xy) refl
        ]
        | inr (xy, xy') ↦ elim (then_with-lt (first y z) (later y z) f) [
          | inl yz ↦ rw (p.same x y z xy, yz) refl
          | inr (yz, yz') ↦ rw (p.same x y z xy, yz) (q.trans x y z xy' yz')
        ]
      ]

module _ {ℓ} {A : Type ℓ} {cmp : A → A → Ordering} (law : Lawful A cmp) where
  list-swapped : (xs ys : List A) → list_cmp cmp ys xs ≡ swap (list_cmp cmp xs ys)
  list-swapped [] [] = refl
  list-swapped [] (y ∷ ys) = refl
  list-swapped (x ∷ xs) [] = refl
  list-swapped (x ∷ xs) (y ∷ ys) =
      rw (law.swapped x y, list-swapped xs ys) (swap-then_with (cmp x y) (list_cmp cmp xs ys))

  list-same :
      (xs ys zs : List A)
      → list_cmp cmp xs ys ≡ Ordering.eq
      → list_cmp cmp xs zs ≡ list_cmp cmp ys zs
  list-same [] [] zs e = refl
  list-same [] (y ∷ ys) zs e = cc
  list-same (x ∷ xs) [] zs e = cc
  list-same (x ∷ xs) (y ∷ ys) [] e = refl
  list-same (x ∷ xs) (y ∷ ys) (z ∷ zs) e =
      let (f, l) = then_with-eq (cmp x y) (list_cmp cmp xs ys) e in
      rw (law.same x y z f, list-same xs ys zs l) refl

  list_trans :
      (xs ys zs : List A)
      → list_cmp cmp xs ys ≡ Ordering.lt
      → list_cmp cmp ys zs ≡ Ordering.lt
      → list_cmp cmp xs zs ≡ Ordering.lt
  list_trans xs [] [] e f = cc
  list_trans [] [] (z ∷ zs) e f = cc
  list_trans [] (y ∷ ys) (z ∷ zs) e f = refl
  list_trans xs (y ∷ ys) [] e f = cc
  list_trans (x ∷ xs) [] zs e f = cc
  list_trans (x ∷ xs) (y ∷ ys) (z ∷ zs) e f = elim (then_with-lt (cmp x y) (list_cmp cmp xs ys) e) [
    | inl xy ↦ elim (then_with-lt (cmp y z) (list_cmp cmp ys zs) f) [
      | inl yz ↦ rw (law.trans x y z xy yz) refl
      | inr (yz, _) ↦ rw (sym (same_right law x y z yz), xy) refl
    ]
    | inr (xy, xy') ↦ elim (then_with-lt (cmp y z) (list_cmp cmp ys zs) f) [
      | inl yz ↦ rw (law.same x y z xy, yz) refl
      | inr (yz, yz') ↦ rw (law.same x y z xy, yz) (list_trans xs ys zs xy' yz')
    ]
  ]

  pub list-Lawful : Lawful (List A) (list_cmp cmp)
  list-Lawful = record { swapped = list-swapped; same = list-same; trans = list_trans }
