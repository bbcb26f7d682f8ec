-- ===== src/Python/Constraints/Meaning.antt =====
-- What the operations of `BranchConstraints` of
-- crates/djls-project/src/python/evaluation/constraints.rs do to the worlds that are allowed.
use django_language_server.Base.{
  and_then, ℕ, ◌<◌, Bool, true, false, not, ◌&&◌, ◌||◌, ◌≡◌, ◌↔◌, refl, sym, ◌∙◌, ◌==◌, Option,
  some, [], arith, inl, inr, Bool-cases,
}
use django_language_server.Python.Constraints.Joins.{BranchJoin}
use django_language_server.Python.Constraints.Diagram.{
  ConstraintNode, impossible, unconstrained, branch, assert_compatible_domains,
}
use django_language_server.Python.Constraints.Canonical.{enough}
use django_language_server.Python.Constraints.Domain.{
  widen_predicates, union, intersection_node, BranchConstraints, of_root, select, merge,
  is_impossible, intersection, compatible_with,
}
use django_language_server.Python.Constraints.Worlds.{
  Domain, IsDomain, World, IsWorld, holds, Formed,
}
use django_language_server.Python.Constraints.Combine.{
  union-CombinesBelow, intersection-CombinesBelow,
}
use django_language_server.Python.Constraints.Makes.{Makes}
use django_language_server.Python.Constraints.Forget.{forget-Makes}
use django_language_server.Python.Constraints.Assign.{assign, any_below}
use django_language_server.Python.Constraints.Collecting.{collect_joins-Collected}
use django_language_server.Python.Constraints.Inhabited.{inhabited, selected-Makes}
use django_language_server.Python.Constraints.Widening.{
  Agrees, Approximates, widen_predicates-Approximates,
}

-- Constraints that are canonical over a domain, and the worlds that they allow.
abbrev pub WellFormed : Domain → BranchConstraints → Type 0
WellFormed d c = Formed d c.root

abbrev pub allows : BranchConstraints → World → Bool
allows c w = holds w c.root

-- The result is canonical, allows each given world, and allows no world that differs from all of these
-- at more than predicates.
pub record Covers (d : Domain) (given : World → Bool) (r : Option BranchConstraints) : Type 0 where
  pub result : BranchConstraints
  pub returns : r ≡ some result
  pub well_formed : WellFormed d result
  pub keeps : (w : World) → IsWorld d w → given w ≡ true → allows result w ≡ true
  pub only :
      (w : World)
      → IsWorld d w
      → allows result w ≡ true
      → (v : World) × IsWorld d v × Agrees w v × (given v ≡ true)

impossible_root :
    (node : ConstraintNode) → is_impossible (record { root = node }) ≡ true → node ≡ impossible
unfolding is_impossible
impossible_root impossible e = refl
impossible_root unconstrained e = cc
impossible_root (branch j arms) e = cc

module _ (d : Domain) (domain : IsDomain d) where
  -- Widening a diagram whose worlds are known.
  widened :
      (allowed : World → Bool) (r : Option ConstraintNode)
      → Makes d allowed r
      → Approximates d allowed (and_then r widen_predicates)
  widened allowed r makes =
      let wide = widen_predicates-Approximates d domain makes.node makes.formed in
      record {
        node = wide.node;
        made = rw makes.made wide.made;
        formed = wide.formed;
        keeps = λ w world e. wide.keeps w world (makes.means w world ∙ e);
        only = λ w world e.
            let (v, v_world, agrees, f) = wide.only w world e in
            (v, v_world, agrees, sym (makes.means v v_world) ∙ f);
      }

  constraints :
      (allowed : World → Bool) (r : Option ConstraintNode)
      → Approximates d allowed r
      → Covers d allowed (and_then r of_root)
  constraints allowed r a = record {
    result = record { root = a.node };
    returns = rw a.made refl;
    well_formed = a.formed;
    keeps = a.keeps;
    only = a.only;
  }

  -- The joins of two canonical diagrams are compatible.
  compatible-Approximates :
      (a b : ConstraintNode) (allowed : World → Bool) (r : Option ConstraintNode)
      → Formed d a
      → Formed d b
      → Approximates d allowed r
      → Approximates d allowed (and_then (assert_compatible_domains a b) (λ joins. r))
  unfolding assert_compatible_domains
  compatible-Approximates a b allowed r fa fb approximates =
      let (joins, e, all) = collect_joins-Collected d domain a [] fa tt in
      let (more, f, _) = collect_joins-Collected d domain b joins fb all in rw (e, f) approximates

  same_worlds :
      (f g : World → Bool) (r : Option ConstraintNode)
      → ((w : World) → IsWorld d w → f w ≡ g w)
      → Approximates d f r
      → Approximates d g r
  same_worlds f g r same a = record {
    node = a.node;
    made = a.made;
    formed = a.formed;
    keeps = λ w world e. a.keeps w world (same w world ∙ e);
    only = λ w world e.
        let (v, v_world, agrees, h) = a.only w world e in
        (v, v_world, agrees, sym (same v v_world) ∙ h);
  }

  intersection_node-Approximates :
      (a b : ConstraintNode)
      → Formed d a
      → Formed d b
      → Approximates d (λ w. holds w a && holds w b) (intersection_node a b)
  unfolding intersection_node
  intersection_node-Approximates a b fa fb =
      compatible-Approximates a b _ _ fa fb (
        widened _ _
          (intersection-CombinesBelow d domain (enough a b) a b (omega arith) fa fb).makes)

  -- Over constraints that are canonical over one domain, `merge` returns, and its result is canonical,
  -- allows every world that one of the two allows, and allows a world only if they allow one that takes
  -- the same arm at every join but predicates.
  pub merge-Covers :
      (a b : BranchConstraints)
      → WellFormed d a
      → WellFormed d b
      → Covers d (λ w. allows a w || allows b w) (merge a b)
  unfolding merge union
  merge-Covers a b fa fb = constraints _ _ (
      compatible-Approximates a.root b.root _ _ fa fb (
        widened _ _
          (union-CombinesBelow d domain (enough a.root b.root) a.root b.root (omega arith) fa
            fb).makes))

  -- Over constraints that are canonical over one domain, `intersection` returns, and its result is
  -- canonical, allows every world that both allow, and allows a world only if both allow one that takes
  -- the same arm at every join but predicates.
  pub intersection-Covers :
      (a b : BranchConstraints)
      → WellFormed d a
      → WellFormed d b
      → Covers d (λ w. allows a w && allows b w) (intersection a b)
  unfolding intersection
  intersection-Covers a b fa fb =
      constraints _ _ (intersection_node-Approximates a.root b.root fa fb)

  -- Over canonical constraints and an arm of a join of the domain, `select` returns, and its result is
  -- canonical, allows every world that takes that arm and that the constraints allow for some arm of the
  -- join, and allows a world only if it takes the same arm, at every join but predicates, as such a world.
  pub select-Covers :
      (c : BranchConstraints) (j : BranchJoin) (i : ℕ)
      → WellFormed d c
      → j.arm_count ≡ d j
      → i < d j
      → Covers d (λ w. any_below (d j) (λ k. allows c (assign w j k)) && w j == i) (select c j i)
  unfolding select
  select-Covers c j i formed own small =
      let forgotten = forget-Makes d domain j c.root own formed in
      let chosen = selected-Makes d domain j i own small in
      let both =
        intersection_node-Approximates forgotten.node chosen.node forgotten.formed chosen.formed in
      rw (forgotten.made, chosen.made)
        (constraints _ _ (
          same_worlds _ _ _ (λ w world. rw (forgotten.means w world, chosen.means w world) refl)
            both))

  -- Canonical constraints are `is_impossible` exactly when they allow no world.
  pub is_impossible_iff :
      (c : BranchConstraints)
      → WellFormed d c
      → (is_impossible c ≡ true) ↔ ((w : World) → IsWorld d w → allows c w ≡ false)
  unfolding is_impossible
  is_impossible_iff c formed = elim (inhabited d domain c.root formed) [
    | inl e ↦ (λ f w world. rw e refl, λ f. rw e refl)
    | inr (w, world, h) ↦ (
      λ f.
          let e = impossible_root c.root f in
          absurd (let g : holds w c.root ≡ false = rw e refl in cc),
      λ none_allowed. let g = none_allowed w world in cc,
    )
  ]

  -- Over constraints that are canonical over one domain, `compatible_with` returns, and `true` exactly if
  -- some world is allowed by both.
  pub compatible_with_lem :
      (a b : BranchConstraints)
      → WellFormed d a
      → WellFormed d b
      → (r : Bool) × (compatible_with a b ≡ some r)
        × ((r ≡ true) ↔ ((w : World) × IsWorld d w × ((allows a w && allows b w) ≡ true)))
  unfolding compatible_with
  compatible_with_lem a b fa fb =
      let both = intersection-Covers a b fa fb in
      let (to, from) = is_impossible_iff both.result both.well_formed in
      (
        not (is_impossible both.result),
        rw both.returns refl,
        (
          λ f. elim (inhabited d domain both.result.root both.well_formed) [
            | inl e ↦ let g = from (λ w world. rw e refl) in cc
            | inr (w, world, h) ↦
                let (v, v_world, agrees, g) = both.only w world h in (v, v_world, g)
          ],
          λ (w, world, f). elim (Bool-cases (is_impossible both.result)) [
            | inl e ↦ let g = both.keeps w world f in let h = to e w world in cc
            | inr e ↦ rw e refl
          ],
        ),
      )
