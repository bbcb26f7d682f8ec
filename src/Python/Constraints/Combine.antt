-- ===== src/Python/Constraints/Combine.antt =====
-- `union_canonical` and `intersection_canonical` of
-- crates/djls-project/src/python/evaluation/constraints.rs: the worlds that their results allow.
use django_language_server.Base.Bools.{||-false, ||-true, ||-self, &&-true, &&-false, &&-self}
use django_language_server.Base.{
  ℕ, zero, suc, ◌+◌, ◌<◌, Bool, true, ◌&&◌, ◌||◌, ◌≡◌, refl, sym, ==_iff, ◌==◌, Option, some, arith,
  inl, inr,
}
use django_language_server.Base.Ordering.{Ordering, Ordering-cases}
use django_language_server.Python.Constraints.Joins.{BranchJoin, identity_cmp, identity-Lawful}
use django_language_server.Python.Constraints.Diagram.{
  ConstraintNode, impossible, unconstrained, branch, Arms, count, ConstraintNode-discrete, depth,
  depth_arms,
}
use django_language_server.Python.Constraints.Canonical.{
  combine_branches, union_cases, union_canonical, intersection_cases, intersection_canonical,
}
use django_language_server.Python.Constraints.Worlds.{
  Domain, IsDomain, World, holds, Above, Formed, Dec-cases,
}
use django_language_server.Python.Constraints.Makes.{
  Makes, map_arms-MakesArms, zip_arms-MakesArms, MakesArms-branch,
}

-- The diagram for `op` of two diagrams.
pub record Combines (d : Domain) (op : Bool → Bool → Bool) (a b : ConstraintNode)
    (r : Option ConstraintNode) : Type 0 where
  pub makes : Makes d (λ w. op (holds w a) (holds w b)) r
  pub above : (k : BranchJoin) → Above k a → Above k b → Above k makes.node

abbrev pub CombinesBelow :
    Domain
    → (Bool → Bool → Bool)
    → ℕ
    → (ConstraintNode → ConstraintNode → Option ConstraintNode)
    → Type 0
CombinesBelow d op bound rec =
    (a b : ConstraintNode)
    → depth a + depth b < bound
    → Formed d a
    → Formed d b
    → Combines d op a b (rec a b)

-- Branches on the same join: the arms are combined one by one.
combine_same-Combines :
    (d : Domain) (op : Bool → Bool → Bool) (fuel : ℕ)
    (rec : ConstraintNode → ConstraintNode → Option ConstraintNode) (j k : BranchJoin)
    (ls rs : Arms)
    → IsDomain d
    → CombinesBelow d op fuel rec
    → depth (branch j ls) + depth (branch k rs) < suc fuel
    → Formed d (branch j ls)
    → Formed d (branch k rs)
    → identity_cmp j k ≡ Ordering.eq
    → Combines d op (branch j ls) (branch k rs) (combine_branches rec j ls k rs)
combine_same-Combines d op fuel rec j k ls rs domain each small fl fr same =
    let counts : count ls ≡ count rs =
      omega (arith, fl.0, fl.1, fr.0, fr.1, domain.respects j k same) in
    let arms =
      zip_arms-MakesArms d j k (depth_arms ls + depth_arms rs) rec op same
        (λ a b deep above_a above_b formed_a formed_b.
          let c = each a b (omega (arith, small, deep)) formed_a formed_b in
          record { makes = c.makes; above = c.above j above_a above_b })
        ls rs (omega arith) counts fl.3 fr.3 in
    let whole = MakesArms-branch d j (count ls) _ _ fl.0 fl.1 arms in
    let domains : (j.arm_count == k.arm_count) ≡ true =
      (==_iff j.arm_count k.arm_count).1 (omega (arith, fl.0, fr.0, domain.respects j k same)) in
    rw (same, combine_branches, domains, combine_branches)
      (record {
        makes = record {
          node = whole.makes.node;
          made = whole.makes.made;
          formed = whole.makes.formed;
          means = λ w world. rw (sym (world.respects j k same)) (whole.makes.means w world);
        };
        above = λ l left right. whole.above l left;
      })

combine_branches-Combines :
    (d : Domain) (op : Bool → Bool → Bool) (fuel : ℕ)
    (rec : ConstraintNode → ConstraintNode → Option ConstraintNode) (j k : BranchJoin)
    (ls rs : Arms)
    → IsDomain d
    → CombinesBelow d op fuel rec
    → depth (branch j ls) + depth (branch k rs) < suc fuel
    → Formed d (branch j ls)
    → Formed d (branch k rs)
    → Combines d op (branch j ls) (branch k rs) (combine_branches rec j ls k rs)
combine_branches-Combines d op fuel rec j k ls rs domain each small fl fr =
    elim (Ordering-cases (identity_cmp j k)) [
      | inl before ↦
          let arms =
            map_arms-MakesArms d j (depth_arms ls) (λ a. rec a (branch k rs))
              (λ w x. op x (holds w (branch k rs)))
              (λ a deep above formed.
                let c = each a (branch k rs) (omega (arith, small, deep)) formed fr in
                record { makes = c.makes; above = c.above j above before })
              ls (omega arith) fl.3 in
          let whole = MakesArms-branch d j (count ls) _ _ fl.0 fl.1 arms in
          rw (before, combine_branches)
            (record { makes = whole.makes; above = λ l left right. whole.above l left })
      | inr (inl same) ↦ combine_same-Combines d op fuel rec j k ls rs domain each small fl fr same
      | inr (inr behind) ↦
          let ahead : identity_cmp k j ≡ Ordering.lt =
            rw (identity-Lawful.swapped j k, behind) refl in
          let arms =
            map_arms-MakesArms d k (depth_arms rs) (λ a. rec (branch j ls) a)
              (λ w x. op (holds w (branch j ls)) x)
              (λ a deep above formed.
                let c = each (branch j ls) a (omega (arith, small, deep)) fl formed in
                record { makes = c.makes; above = c.above k ahead above })
              rs (omega arith) fr.3 in
          let whole = MakesArms-branch d k (count rs) _ _ fr.0 fr.1 arms in
          rw (behind, combine_branches)
            (record { makes = whole.makes; above = λ l left right. whole.above l right })
    ]

-- A result that is at hand.
Combines-some :
    (d : Domain) (op : Bool → Bool → Bool) (a b node : ConstraintNode)
    → Formed d node
    → ((w : World) → holds w node ≡ op (holds w a) (holds w b))
    → ((k : BranchJoin) → Above k a → Above k b → Above k node)
    → Combines d op a b (some node)
Combines-some d op a b node formed means above = record {
  makes = record { node = node; made = refl; formed = formed; means = λ w world. means w };
  above = above;
}

module _ (d : Domain) (domain : IsDomain d) where
  union_cases-Combines :
      (fuel : ℕ) (rec : ConstraintNode → ConstraintNode → Option ConstraintNode)
      → CombinesBelow d ◌||◌ fuel rec
      → CombinesBelow d ◌||◌ (suc fuel) (union_cases rec)
  union_cases-Combines fuel rec each unconstrained b small fa fb =
      Combines-some d ◌||◌ unconstrained b unconstrained fa (λ w. refl) (λ k x y. x)
  union_cases-Combines fuel rec each impossible b small fa fb =
      Combines-some d ◌||◌ impossible b b fb (λ w. refl) (λ k x y. y)
  union_cases-Combines fuel rec each (branch j ls) unconstrained small fa fb =
      Combines-some d ◌||◌ (branch j ls) unconstrained unconstrained fb (λ w. sym (||-true _))
        (λ k x y. y)
  union_cases-Combines fuel rec each (branch j ls) impossible small fa fb =
      Combines-some d ◌||◌ (branch j ls) impossible (branch j ls) fa (λ w. sym (||-false _))
        (λ k x y. x)
  union_cases-Combines fuel rec each (branch j ls) (branch k rs) small fa fb =
      combine_branches-Combines d ◌||◌ fuel rec j k ls rs domain each small fa fb

  pub union-CombinesBelow : (fuel : ℕ) → CombinesBelow d ◌||◌ fuel (union_canonical fuel)
  unfolding union_canonical
  union-CombinesBelow zero a b small fa fb = absurd (omega (arith, small))
  union-CombinesBelow (suc fuel) a b small fa fb = elim (Dec-cases (ConstraintNode-discrete a b)) [
    | inl (same, e) ↦
        rw (e, union_canonical)
          (Combines-some d ◌||◌ a b a fa (λ w. rw (sym same) (sym (||-self _))) (λ k x y. x))
    | inr (other, e) ↦
        rw (e, union_canonical)
          (union_cases-Combines fuel (union_canonical fuel) (union-CombinesBelow fuel) a b small fa
            fb)
  ]

  intersection_cases-Combines :
      (fuel : ℕ) (rec : ConstraintNode → ConstraintNode → Option ConstraintNode)
      → CombinesBelow d ◌&&◌ fuel rec
      → CombinesBelow d ◌&&◌ (suc fuel) (intersection_cases rec)
  intersection_cases-Combines fuel rec each impossible b small fa fb =
      Combines-some d ◌&&◌ impossible b impossible fa (λ w. refl) (λ k x y. x)
  intersection_cases-Combines fuel rec each unconstrained b small fa fb =
      Combines-some d ◌&&◌ unconstrained b b fb (λ w. refl) (λ k x y. y)
  intersection_cases-Combines fuel rec each (branch j ls) impossible small fa fb =
      Combines-some d ◌&&◌ (branch j ls) impossible impossible fb (λ w. sym (&&-false _))
        (λ k x y. y)
  intersection_cases-Combines fuel rec each (branch j ls) unconstrained small fa fb =
      Combines-some d ◌&&◌ (branch j ls) unconstrained (branch j ls) fa (λ w. sym (&&-true _))
        (λ k x y. x)
  intersection_cases-Combines fuel rec each (branch j ls) (branch k rs) small fa fb =
      combine_branches-Combines d ◌&&◌ fuel rec j k ls rs domain each small fa fb

  pub intersection-CombinesBelow :
      (fuel : ℕ) → CombinesBelow d ◌&&◌ fuel (intersection_canonical fuel)
  unfolding intersection_canonical
  intersection-CombinesBelow zero a b small fa fb = absurd (omega (arith, small))
  intersection-CombinesBelow (suc fuel) a b small fa fb =
      elim (Dec-cases (ConstraintNode-discrete a b)) [
        | inl (same, e) ↦
            rw (e, intersection_canonical)
              (Combines-some d ◌&&◌ a b a fa (λ w. rw (sym same) (sym (&&-self _))) (λ k x y. x))
        | inr (other, e) ↦
            rw (e, intersection_canonical)
              (intersection_cases-Combines fuel (intersection_canonical fuel)
                (intersection-CombinesBelow fuel) a b small fa fb)
      ]
