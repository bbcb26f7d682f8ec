-- ===== src/Python/Constraints/Inhabited.antt =====
-- A canonical diagram of crates/djls-project/src/python/evaluation/constraints.rs that is not
-- `Impossible` allows some world, and the diagrams that `selected` builds.
use django_language_server.Base.{
  ℕ, zero, suc, ◌<◌, Bool, true, false, ◌≡◌, refl, ◌∙◌, ◌==◌, ltb, Option, none, some, arith, ◌⊎◌,
  inl, inr,
}
use django_language_server.Base.Ordering.{self_eq}
use django_language_server.Python.Constraints.Joins.{BranchJoin, identity-Lawful}
use django_language_server.Python.Constraints.Diagram.{
  ConstraintNode, impossible, unconstrained, branch, Arms, end, arm, count, ConstraintNode-discrete,
  all_equal, shared, impossible_arms, set_arm, selected,
}
use django_language_server.Python.Constraints.Worlds.{
  Domain, IsDomain, World, IsWorld, holds, holds_at, Above, Formed, Formeds, Dec-cases,
  all_equal-arm,
}
use django_language_server.Python.Constraints.Makes.{Makes, MakesArms, MakesArms-branch}
use django_language_server.Python.Constraints.Assign.{
  assign, assign_at, assign-IsWorld, holds_at-assign_same,
}

abbrev pub Inhabited : Domain → ConstraintNode → Type 0
Inhabited d node = (w : World) × IsWorld d w × (holds w node ≡ true)

abbrev InhabitedArm : Domain → Arms → Type 0
InhabitedArm d arms =
    (w : World) × (i : ℕ) × IsWorld d w × (i < count arms) × (holds_at w i arms ≡ true)

module _ (d : Domain) (domain : IsDomain d) where
  -- Arms that are all impossible have no branch.
  not_all_impossible :
      (j : BranchJoin) (arms : Arms)
      → Formed d (branch j arms)
      → all_equal impossible arms ≡ true
      → ⊥
  not_all_impossible j end formed e =
      let least = domain.positive j in absurd (omega (arith, formed.0, formed.1, least))
  not_all_impossible j (arm a arms) formed e =
      let same : a ≡ impossible = (all_equal-arm impossible a arms e).0 in
      let all : all_equal a (arm a arms) ≡ true = rw same (rw same at e) in
      let shown : some a ≡ none = rw (all, shared) at formed.2 in cc

  branch-Inhabited :
      (j : BranchJoin) (arms : Arms)
      → Formed d (branch j arms)
      → (all_equal impossible arms ≡ true) ⊎ InhabitedArm d arms
      → Inhabited d (branch j arms)
  branch-Inhabited j arms formed (inl all) = absurd (not_all_impossible j arms formed all)
  branch-Inhabited j arms formed (inr (w, i, world, small, e)) = (
    assign w j i,
    assign-IsWorld d w j i domain world (omega (arith, small, formed.0, formed.1)),
    rw (assign_at w j j i (self_eq identity-Lawful j))
        (holds_at-assign_same d w j j i i arms formed.3 (self_eq identity-Lawful j) ∙ e),
  )

  inhabited_arm :
      (a : ConstraintNode) (arms : Arms)
      → (a ≡ impossible) ⊎ Inhabited d a
      → (all_equal impossible arms ≡ true) ⊎ InhabitedArm d arms
      → (all_equal impossible (arm a arms) ≡ true) ⊎ InhabitedArm d (arm a arms)
  inhabited_arm a arms (inr (w, world, e)) rest = inr (w, 0, world, omega arith, e)
  inhabited_arm a arms (inl none_here) (inr (w, i, world, small, e)) =
      inr (w, suc i, world, omega (arith, small), e)
  inhabited_arm a arms (inl none_here) (inl all) =
      inl (elim (Dec-cases (ConstraintNode-discrete a impossible)) [
        | inl (same, f) ↦ rw (f, all_equal) all
        | inr (other, f) ↦ absurd (other none_here)
      ])

  mutual
    pub inhabited : (node : ConstraintNode) → Formed d node → (node ≡ impossible) ⊎ Inhabited d node
    inhabited impossible formed = inl refl
    inhabited unconstrained formed =
        inr (λ j. 0, record { within = λ j. domain.positive j; respects = λ j k e. refl }, refl)
    inhabited (branch j arms) formed =
        inr (branch-Inhabited j arms formed (inhabited_arms j arms formed.3))

    inhabited_arms :
        (j : BranchJoin) (arms : Arms)
        → Formeds d j arms
        → (all_equal impossible arms ≡ true) ⊎ InhabitedArm d arms
    inhabited_arms j end formeds = inl refl
    inhabited_arms j (arm a arms) formeds =
        inhabited_arm a arms (inhabited a formeds.1) (inhabited_arms j arms formeds.2)

  cons_arm :
      (j : BranchJoin) (n : ℕ) (a : ConstraintNode) (allowed : ℕ → Bool) (arms : Arms)
      → Above j a
      → Formed d a
      → ((w : World) → holds w a ≡ allowed 0)
      → MakesArms d j n (λ w i. allowed (suc i)) (some arms)
      → MakesArms d j (suc n) (λ w i. allowed i) (some (arm a arms))
  cons_arm j n a allowed arms above formed first rest =
      let same : arms ≡ rest.arms = let e = rest.made in cc in
      record {
        arms = arm a rest.arms;
        made = rw same refl;
        covers = rw rest.covers refl;
        formeds = (above, formed, rest.formeds);
        means = λ w. elim [
          | zero ↦ λ world h. first w
          | suc i ↦ λ world h. rest.means w i world (omega arith)
        ];
      }

  same_allowed :
      (j : BranchJoin) (n : ℕ) (f g : ℕ → Bool) (r : Option Arms)
      → ((k : ℕ) → f k ≡ g k)
      → MakesArms d j n (λ w k. f k) r
      → MakesArms d j n (λ w k. g k) r
  same_allowed j n f g r same parts = record {
    arms = parts.arms;
    made = parts.made;
    covers = parts.covers;
    formeds = parts.formeds;
    means = λ w k world small. parts.means w k world small ∙ same k;
  }

  -- The arms of `selected`.
  impossible_arms-MakesArms :
      (j : BranchJoin) (n : ℕ) → MakesArms d j n (λ w i. false) (some (impossible_arms n))
  impossible_arms-MakesArms j zero = record {
    arms = end;
    made = refl;
    covers = refl;
    formeds = tt;
    means = λ w i world h. absurd (omega arith);
  }
  impossible_arms-MakesArms j (suc n) =
      cons_arm j n impossible (λ i. false) _ tt tt (λ w. refl) (impossible_arms-MakesArms j n)

  set_arm-MakesArms :
      (j : BranchJoin) (n i : ℕ)
      → i < n
      → MakesArms d j n (λ w k. k == i) (some (set_arm (impossible_arms n) i unconstrained))
  set_arm-MakesArms j zero i h = absurd (omega arith)
  set_arm-MakesArms j (suc n) zero h =
      cons_arm j n unconstrained (λ k. k == 0) _ tt tt (λ w. refl)
        (same_allowed j n _ _ _ (λ k. ground arith) (impossible_arms-MakesArms j n))
  set_arm-MakesArms j (suc n) (suc i) h =
      cons_arm j n impossible (λ k. k == suc i) _ tt tt (λ w. ground arith)
        (same_allowed j n _ _ _ (λ k. ground arith) (set_arm-MakesArms j n i (omega arith)))

  pub selected-Makes :
      (j : BranchJoin) (i : ℕ)
      → j.arm_count ≡ d j
      → i < d j
      → Makes d (λ w. w j == i) (selected j i)
  unfolding selected
  selected-Makes j i own small =
      let arms = set_arm-MakesArms j j.arm_count i (omega (arith, own, small)) in
      let inside : ltb i j.arm_count ≡ true = ground (arith, own, small) in
      rw inside (MakesArms-branch d j j.arm_count (λ w k. k == i) _ own refl arms).makes
