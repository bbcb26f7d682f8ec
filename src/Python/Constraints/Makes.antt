-- ===== src/Python/Constraints/Makes.antt =====
-- What an operation of crates/djls-project/src/python/evaluation/constraints.rs makes: a diagram that is well
-- formed and allows given worlds.
use django_language_server.Base.{
  and_then, ℕ, zero, suc, ◌+◌, ◌≤◌, ◌<◌, Bool, ◌≡◌, refl, ◌∙◌, Option, some, arith,
}
use django_language_server.Base.Ordering.{Ordering}
use django_language_server.Python.Constraints.Joins.{BranchJoin, identity_cmp}
use django_language_server.Python.Constraints.Diagram.{
  ConstraintNode, Arms, end, arm, count, new_branch, depth, depth_arms,
}
use django_language_server.Python.Constraints.Canonical.{map_arms, zip_arms}
use django_language_server.Python.Constraints.Worlds.{
  Domain, World, IsWorld, holds, holds_at, Above, Formed, Formeds, Above-same, new_branch-Builds,
}

-- A canonical diagram behind `j` that allows the worlds that `allowed` says.
pub record Makes (d : Domain) (allowed : World → Bool) (r : Option ConstraintNode) : Type 0 where
  pub node : ConstraintNode
  pub made : r ≡ some node
  pub formed : Formed d node
  pub means : (w : World) → IsWorld d w → holds w node ≡ allowed w

-- The same, of each of some arms of `j`.
pub record MakesArms (d : Domain) (j : BranchJoin) (n : ℕ) (allowed : World → ℕ → Bool)
    (r : Option Arms) : Type 0 where
  pub arms : Arms
  pub made : r ≡ some arms
  pub covers : count arms ≡ n
  pub formeds : Formeds d j arms
  pub means : (w : World) (i : ℕ) → IsWorld d w → i < n → holds_at w i arms ≡ allowed w i

-- What a function makes of one arm of `j`.
pub record MakesArm (d : Domain) (j : BranchJoin) (allowed : World → Bool)
    (r : Option ConstraintNode) : Type 0 where
  pub makes : Makes d allowed r
  pub above : Above j makes.node

pub map_arms-MakesArms :
    (d : Domain) (j : BranchJoin) (bound : ℕ) (f : ConstraintNode → Option ConstraintNode)
    (g : World → Bool → Bool)
    → ((a : ConstraintNode)
        → depth a ≤ bound
        → Above j a
        → Formed d a
        → MakesArm d j (λ w. g w (holds w a)) (f a))
    → (arms : Arms) → depth_arms arms ≤ bound
    → Formeds d j arms
    → MakesArms d j (count arms) (λ w i. g w (holds_at w i arms)) (map_arms f arms)
map_arms-MakesArms d j bound f g each end small formeds = record {
  arms = end;
  made = refl;
  covers = refl;
  formeds = tt;
  means = λ w i world h. absurd (omega arith);
}
map_arms-MakesArms d j bound f g each (arm a arms) small formeds =
    let first = each a (omega (arith, small)) formeds.0 formeds.1 in
    let rest = map_arms-MakesArms d j bound f g each arms (omega (arith, small)) formeds.2 in
    record {
      arms = arm first.makes.node rest.arms;
      made = rw (first.makes.made, rest.made) refl;
      covers = rw rest.covers refl;
      formeds = (first.above, first.makes.formed, rest.formeds);
      means = λ w. elim [
        | zero ↦ λ world h. first.makes.means w world
        | suc i ↦ λ world h. rest.means w i world (omega arith)
      ];
    }

pub zip_arms-MakesArms :
    (d : Domain) (j k : BranchJoin) (bound : ℕ)
    (f : ConstraintNode → ConstraintNode → Option ConstraintNode) (op : Bool → Bool → Bool)
    → identity_cmp j k ≡ Ordering.eq
    → ((a b : ConstraintNode)
        → depth a + depth b ≤ bound
        → Above j a
        → Above j b
        → Formed d a
        → Formed d b
        → MakesArm d j (λ w. op (holds w a) (holds w b)) (f a b))
    → (ls rs : Arms) → depth_arms ls + depth_arms rs ≤ bound
    → count ls ≡ count rs
    → Formeds d j ls
    → Formeds d k rs
    → MakesArms d j (count ls) (λ w i. op (holds_at w i ls) (holds_at w i rs)) (zip_arms f ls rs)
zip_arms-MakesArms d j k bound f op same each end rs small counts fl fr = record {
  arms = end;
  made = refl;
  covers = refl;
  formeds = tt;
  means = λ w i world h. absurd (omega arith);
}
zip_arms-MakesArms d j k bound f op same each (arm l ls) end small counts fl fr =
    absurd (omega (arith, counts))
zip_arms-MakesArms d j k bound f op same each (arm l ls) (arm r rs) small counts fl fr =
    let first = each l r (omega (arith, small)) fl.0 (Above-same j k r same fr.0) fl.1 fr.1 in
    let rest =
      zip_arms-MakesArms d j k bound f op same each ls rs (omega (arith, small))
        (omega (arith, counts)) fl.2 fr.2 in
    record {
      arms = arm first.makes.node rest.arms;
      made = rw (first.makes.made, rest.made) refl;
      covers = rw rest.covers refl;
      formeds = (first.above, first.makes.formed, rest.formeds);
      means = λ w. elim [
        | zero ↦ λ world h. first.makes.means w world
        | suc i ↦ λ world h. rest.means w i world (omega arith)
      ];
    }

-- A branch over arms that are made.
pub record MakesBranch (d : Domain) (j : BranchJoin) (allowed : World → Bool)
    (r : Option ConstraintNode) : Type 0 where
  pub makes : Makes d allowed r
  pub above : (k : BranchJoin) → identity_cmp k j ≡ Ordering.lt → Above k makes.node

pub MakesArms-branch :
    (d : Domain) (j : BranchJoin) (n : ℕ) (allowed : World → ℕ → Bool) (r : Option Arms)
    → j.arm_count ≡ d j
    → n ≡ j.arm_count
    → MakesArms d j n allowed r
    → MakesBranch d j (λ w. allowed w (w j)) (and_then r (new_branch j))
MakesArms-branch d j n allowed r domain all parts =
    let b = new_branch-Builds d j parts.arms domain (rw parts.covers all) parts.formeds in
    record {
      makes = record {
        node = b.node;
        made = rw parts.made b.built;
        formed = b.formed;
        means = λ w world.
            b.means w (world.within j)
            ∙ parts.means w (w j) world (omega (arith, world.within j, domain, all));
      };
      above = b.above;
    }
