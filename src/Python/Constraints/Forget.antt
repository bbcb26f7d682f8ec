-- ===== src/Python/Constraints/Forget.antt =====
-- `forget` of crates/djls-project/src/python/evaluation/constraints.rs: the worlds that its result allows.
use django_language_server.Base.Bools.{||-false, ||-assoc}
use django_language_server.Base.{
  and_then, zero, suc, Bool, ◌||◌, ◌≡◌, refl, sym, ◌∙◌, ==_iff, Option, some, arith, inl, inr,
}
use django_language_server.Base.Ordering.{Ordering, Ordering-cases}
use django_language_server.Python.Constraints.Joins.{BranchJoin, identity_cmp, identity-Lawful}
use django_language_server.Python.Constraints.Diagram.{
  ConstraintNode, impossible, unconstrained, branch, Arms, end, arm, count, new_branch,
}
use django_language_server.Python.Constraints.Canonical.{enough, union_arms, forget, forget_arms}
use django_language_server.Python.Constraints.Worlds.{
  Domain, IsDomain, World, holds, holds_at, Above, Formed, Formeds, Above-trans,
}
use django_language_server.Python.Constraints.Combine.{union-CombinesBelow}
use django_language_server.Python.Constraints.Makes.{Makes, MakesArms, MakesArms-branch}
use django_language_server.Python.Constraints.Assign.{
  assign, any_below, any_below-ext, any_below_const, assign_at, assign_before, holds_at-assign_same,
  holds-assign,
}

-- A diagram that is made, and behind what `behind` says.
record MakesAbove (d : Domain) (behind : BranchJoin → Type 0) (allowed : World → Bool)
    (r : Option ConstraintNode) : Type 0 where
  makes : Makes d allowed r
  above : (k : BranchJoin) → behind k → Above k makes.node

-- The cases of `forget`.
forget_impossible : (j : BranchJoin) → forget j impossible ≡ some impossible
unfolding forget
forget_impossible j = refl

forget_unconstrained : (j : BranchJoin) → forget j unconstrained ≡ some unconstrained
unfolding forget
forget_unconstrained j = refl

forget_before :
    (j k : BranchJoin) (arms : Arms)
    → identity_cmp k j ≡ Ordering.lt
    → forget j (branch k arms) ≡ and_then (forget_arms j arms) (new_branch k)
unfolding forget
forget_before j k arms e = rw e refl

forget_same :
    (j k : BranchJoin) (arms : Arms)
    → identity_cmp k j ≡ Ordering.eq
    → k.arm_count ≡ j.arm_count
    → forget j (branch k arms) ≡ union_arms impossible arms
unfolding forget
forget_same j k arms e domains = rw (e, (==_iff k.arm_count j.arm_count).1 domains) refl

forget_behind :
    (j k : BranchJoin) (arms : Arms)
    → identity_cmp k j ≡ Ordering.gt
    → forget j (branch k arms) ≡ some (branch k arms)
unfolding forget
forget_behind j k arms e = rw e refl

forget_arms_arm :
    (j : BranchJoin) (a a' : ConstraintNode) (arms rest : Arms)
    → forget j a ≡ some a'
    → forget_arms j arms ≡ some rest
    → forget_arms j (arm a arms) ≡ some (arm a' rest)
unfolding forget
forget_arms_arm j a a' arms rest e f = rw (e, f) refl

forget_arms_end : (j : BranchJoin) → forget_arms j end ≡ some end
unfolding forget
forget_arms_end j = refl

module _ (d : Domain) (domain : IsDomain d) where
  union_arms-MakesAbove :
      (j : BranchJoin) (result : ConstraintNode) (arms : Arms)
      → Formed d result
      → Formeds d j arms
      → MakesAbove d
          (λ k. Above k result × (identity_cmp k j ≡ Ordering.lt))
          (λ w. holds w result || any_below (count arms) (λ i. holds_at w i arms))
          (union_arms result arms)
  unfolding union_arms
  union_arms-MakesAbove j result end formed formeds = record {
    makes = record {
      node = result;
      made = refl;
      formed = formed;
      means = λ w world. sym (||-false (holds w result));
    };
    above = λ k behind. behind.0;
  }
  union_arms-MakesAbove j result (arm a arms) formed formeds =
      let c =
        union-CombinesBelow d domain (enough result a) result a (omega arith) formed formeds.1 in
      let rest = union_arms-MakesAbove j c.makes.node arms c.makes.formed formeds.2 in
      record {
        makes = record {
          node = rest.makes.node;
          made = rw c.makes.made rest.makes.made;
          formed = rest.makes.formed;
          means = λ w world.
              rw (rest.makes.means w world, c.makes.means w world)
                (||-assoc (holds w result) (holds w a) _);
        };
        above = λ k behind.
            rest.above k (c.above k behind.0 (Above-trans k j a behind.1 formeds.0), behind.1);
      }

  -- `forget` of `j`.
  abbrev Forgotten : BranchJoin → ConstraintNode → Option ConstraintNode → Type 0
  Forgotten j a = MakesAbove d (λ k. Above k a) (λ w. any_below (d j) (λ i. holds (assign w j i) a))

  kept : (j : BranchJoin) (a : ConstraintNode) → Above j a → Formed d a → Forgotten j a (some a)
  kept j a above formed = record {
    makes = record {
      node = a;
      made = refl;
      formed = formed;
      means = λ w world. sym (
          any_below-ext (d j) (λ i. holds (assign w j i) a) (λ i. holds w a)
            (λ i small. holds-assign d w j i a above formed)
          ∙ any_below_const (d j) (holds w a) (domain.positive j));
    };
    above = λ k behind. behind;
  }

  -- A branch whose join is forgotten.
  forgotten_branch :
      (j k : BranchJoin) (arms : Arms)
      → j.arm_count ≡ d j
      → identity_cmp k j ≡ Ordering.eq
      → Formed d (branch k arms)
      → Forgotten j (branch k arms) (forget j (branch k arms))
  forgotten_branch j k arms own same formed =
      let all = union_arms-MakesAbove k impossible arms tt formed.3 in
      let domains : d k ≡ d j = domain.respects k j same in
      let counts : count arms ≡ d j = omega (arith, domains, formed.0, formed.1) in
      let ahead : identity_cmp j k ≡ Ordering.eq = rw (identity-Lawful.swapped k j, same) refl in
      rw (forget_same j k arms same (omega (arith, own, formed.0, domains))) (record {
        makes = record {
          node = all.makes.node;
          made = all.makes.made;
          formed = all.makes.formed;
          means = λ w world.
              all.makes.means w world
              ∙ rw (sym counts) (
                  any_below-ext (count arms) (λ i. holds_at w i arms)
                    (λ i. holds (assign w j i) (branch k arms))
                    (λ i small.
                      rw (assign_at w j k i same)
                        (sym (holds_at-assign_same d w j k i i arms formed.3 ahead))));
        };
        above = λ l behind. all.above l (tt, behind);
      })

  mutual
    forget-Forgotten :
        (j : BranchJoin) (a : ConstraintNode)
        → j.arm_count ≡ d j
        → Formed d a
        → Forgotten j a (forget j a)
    forget-Forgotten j impossible own formed =
        rw (forget_impossible j) (kept j impossible tt formed)
    forget-Forgotten j unconstrained own formed =
        rw (forget_unconstrained j) (kept j unconstrained tt formed)
    forget-Forgotten j (branch k arms) own formed = elim (Ordering-cases (identity_cmp k j)) [
      | inl before ↦
          let parts = forget_arms-MakesArms j k arms own formed.3 in
          let whole = MakesArms-branch d k (count arms) _ _ formed.0 formed.1 parts in
          rw (forget_before j k arms before) (record {
            makes = record {
              node = whole.makes.node;
              made = whole.makes.made;
              formed = whole.makes.formed;
              means = λ w world.
                  whole.makes.means w world
                  ∙ any_below-ext (d j) (λ i. holds_at (assign w j i) (w k) arms)
                      (λ i. holds (assign w j i) (branch k arms))
                      (λ i small. rw (assign_before w j k i before) refl);
            };
            above = λ l behind. whole.above l behind;
          })
      | inr (inl same) ↦ forgotten_branch j k arms own same formed
      | inr (inr behind) ↦
          let ahead : identity_cmp j k ≡ Ordering.lt =
            rw (identity-Lawful.swapped k j, behind) refl in
          rw (forget_behind j k arms behind) (kept j (branch k arms) ahead formed)
    ]

    forget_arms-MakesArms :
        (j k : BranchJoin) (arms : Arms)
        → j.arm_count ≡ d j
        → Formeds d k arms
        → MakesArms d k
            (count arms)
            (λ w n. any_below (d j) (λ i. holds_at (assign w j i) n arms))
            (forget_arms j arms)
    forget_arms-MakesArms j k end own formeds = record {
      arms = end;
      made = forget_arms_end j;
      covers = refl;
      formeds = tt;
      means = λ w i world h. absurd (omega arith);
    }
    forget_arms-MakesArms j k (arm a arms) own formeds =
        let first = forget-Forgotten j a own formeds.1 in
        let rest = forget_arms-MakesArms j k arms own formeds.2 in
        record {
          arms = arm first.makes.node rest.arms;
          made = forget_arms_arm j a first.makes.node arms rest.arms first.makes.made rest.made;
          covers = rw rest.covers refl;
          formeds = (first.above k formeds.0, first.makes.formed, rest.formeds);
          means = λ w. elim [
            | zero ↦ λ world h. first.makes.means w world
            | suc i ↦ λ world h. rest.means w i world (omega arith)
          ];
        }

  -- Forgetting a join allows the worlds that some arm of it allows.
  pub forget-Makes :
      (j : BranchJoin) (a : ConstraintNode)
      → j.arm_count ≡ d j
      → Formed d a
      → Makes d (λ w. any_below (d j) (λ i. holds (assign w j i) a)) (forget j a)
  forget-Makes j a own formed = (forget-Forgotten j a own formed).makes
