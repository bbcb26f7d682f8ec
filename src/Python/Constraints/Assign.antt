-- ===== src/Python/Constraints/Assign.antt =====
-- Worlds that differ in one join, for crates/djls-project/src/python/evaluation/constraints.rs.
use django_language_server.Base.{
  ℕ, zero, suc, ◌<◌, Bool, true, false, ◌||◌, ◌≡◌, refl, arith, inl, inr,
}
use django_language_server.Base.Ordering.{Ordering, Ordering-cases}
use django_language_server.Python.Constraints.Joins.{BranchJoin, identity_cmp, identity-Lawful}
use django_language_server.Python.Constraints.Diagram.{
  ConstraintNode, impossible, unconstrained, branch, Arms, end, arm,
}
use django_language_server.Python.Constraints.Worlds.{
  Domain, IsDomain, World, IsWorld, holds, holds_at, Above, Formed, Formeds, Above-same,
  Above-trans,
}

-- The world that takes arm `i` at the coordinate of `j`, and the arms of `w` elsewhere.
abbrev pub assign : World → BranchJoin → ℕ → World
assign w j i k = elim (identity_cmp k j) [ Ordering.eq ↦ i | _ ↦ w k ]

-- Some number below `n` has the property.
abbrev pub any_below : ℕ → (ℕ → Bool) → Bool
any_below zero f = false
any_below (suc n) f = f 0 || any_below n (λ i. f (suc i))

pub any_below-ext :
    (n : ℕ) (f g : ℕ → Bool) → ((i : ℕ) → i < n → f i ≡ g i) → any_below n f ≡ any_below n g
any_below-ext zero f g e = refl
any_below-ext (suc n) f g e =
    rw
      (
        e 0 (omega arith),
        any_below-ext n (λ i. f (suc i)) (λ i. g (suc i)) (λ i h. e (suc i) (omega arith)),
      )
      refl

pub any_below_const : (n : ℕ) (x : Bool) → 0 < n → any_below n (λ i. x) ≡ x
any_below_const zero x h = absurd (omega arith)
any_below_const (suc n) true h = refl
any_below_const (suc zero) false h = refl
any_below_const (suc (suc n)) false h = any_below_const (suc n) false (omega arith)

pub assign_at :
    (w : World) (j k : BranchJoin) (i : ℕ) → identity_cmp k j ≡ Ordering.eq → assign w j i k ≡ i
assign_at w j k i e = rw (e, assign) refl

pub assign_before :
    (w : World) (j k : BranchJoin) (i : ℕ) → identity_cmp k j ≡ Ordering.lt → assign w j i k ≡ w k
assign_before w j k i e = rw (e, assign) refl

assign_behind :
    (w : World) (j k : BranchJoin) (i : ℕ) → identity_cmp j k ≡ Ordering.lt → assign w j i k ≡ w k
assign_behind w j k i e =
    let back : identity_cmp k j ≡ Ordering.gt = rw (identity-Lawful.swapped j k, e) refl in
    rw (back, assign) refl

pub assign-IsWorld :
    (d : Domain) (w : World) (j : BranchJoin) (i : ℕ)
    → IsDomain d
    → IsWorld d w
    → i < d j
    → IsWorld d (assign w j i)
assign-IsWorld d w j i domain world small = record { within = within; respects = respects }
  where
    within : (k : BranchJoin) → assign w j i k < d k
    within k = elim (Ordering-cases (identity_cmp k j)) [
      | inl e ↦ rw (e, assign) (world.within k)
      | inr (inl e) ↦ rw (e, assign) (omega (arith, domain.respects k j e, small))
      | inr (inr e) ↦ rw (e, assign) (world.within k)
    ]

    respects : (k l : BranchJoin) → identity_cmp k l ≡ Ordering.eq → assign w j i k ≡ assign w j i l
    respects k l e =
        let same = identity-Lawful.same k l j e in
        elim (Ordering-cases (identity_cmp k j)) [
          | inl f ↦
              let g : identity_cmp l j ≡ Ordering.lt = cc in
              rw (f, assign, g, assign) (world.respects k l e)
          | inr (inl f) ↦
              let g : identity_cmp l j ≡ Ordering.eq = cc in rw (f, assign, g, assign) refl
          | inr (inr f) ↦
              let g : identity_cmp l j ≡ Ordering.gt = cc in
              rw (f, assign, g, assign) (world.respects k l e)
        ]

-- A diagram behind `j` does not read the arm of `j`.
mutual
  pub holds-assign :
      (d : Domain) (w : World) (j : BranchJoin) (i : ℕ) (node : ConstraintNode)
      → Above j node
      → Formed d node
      → holds (assign w j i) node ≡ holds w node
  holds-assign d w j i impossible above formed = refl
  holds-assign d w j i unconstrained above formed = refl
  holds-assign d w j i (branch k arms) above formed =
      rw (assign_behind w j k i above) (holds_at-assign d w j k i above (w k) arms formed.3)

  pub holds_at-assign :
      (d : Domain) (w : World) (j k : BranchJoin) (i : ℕ)
      → identity_cmp j k ≡ Ordering.lt
      → (n : ℕ) (arms : Arms) → Formeds d k arms
      → holds_at (assign w j i) n arms ≡ holds_at w n arms
  holds_at-assign d w j k i before n end formeds = refl
  holds_at-assign d w j k i before zero (arm a arms) formeds =
      holds-assign d w j i a (Above-trans j k a before formeds.0) formeds.1
  holds_at-assign d w j k i before (suc n) (arm a arms) formeds =
      holds_at-assign d w j k i before n arms formeds.2

-- Nor do the arms of a branch on `j` itself.
pub holds_at-assign_same :
    (d : Domain) (w : World) (j k : BranchJoin) (i n : ℕ) (arms : Arms)
    → Formeds d k arms
    → identity_cmp j k ≡ Ordering.eq
    → holds_at (assign w j i) n arms ≡ holds_at w n arms
holds_at-assign_same d w j k i n end formeds e = refl
holds_at-assign_same d w j k i zero (arm a arms) formeds e =
    holds-assign d w j i a (Above-same j k a e formeds.0) formeds.1
holds_at-assign_same d w j k i (suc n) (arm a arms) formeds e =
    holds_at-assign_same d w j k i n arms formeds.2 e
