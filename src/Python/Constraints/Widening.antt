-- ===== src/Python/Constraints/Widening.antt =====
-- `widen_predicates` of crates/djls-project/src/python/evaluation/constraints.rs: it adds worlds, which
-- differ from the old ones at predicates only, and loses none.
use django_language_server.Base.{
  ℕ, zero, suc, ◌<◌, Bool, true, false, ◌||◌, ◌≡◌, refl, sym, ◌∙◌, ◌==◌, Option, some, List, [],
  ◌∷◌, All, arith, inl, inr, Bool-cases,
}
use django_language_server.Base.Ordering.{
  Ordering, Ordering-cases, then_with-eq, compare, option_cmp,
}
use django_language_server.Python.Identity.{module_cmp, origin_cmp, text_cmp}
use django_language_server.Python.Constraints.Joins.{
  BranchJoin, BranchJoinKind, control, binding_choice, predicate, kind_rank, identity_cmp, join_cmp,
}
use django_language_server.Python.Constraints.Diagram.{
  ConstraintNode, impossible, unconstrained, branch, Arms, end, arm,
}
use django_language_server.Python.Constraints.Domain.{
  is_predicate_kind, is_predicate, predicates_of, insert_join, sort_joins, skip, forget_joins,
  widen_predicates, max_tracked_predicates,
}
use django_language_server.Python.Constraints.Worlds.{
  Domain, IsDomain, World, IsWorld, holds, holds_at, Formed,
}
use django_language_server.Python.Constraints.Forget.{forget-Makes}
use django_language_server.Python.Constraints.Assign.{assign, any_below, assign-IsWorld}
use django_language_server.Python.Constraints.Collecting.{InDomain, collect_joins-Collected}

-- The worlds take the same arm at every join but predicates.
abbrev pub Agrees : World → World → Type 0
Agrees w v = (k : BranchJoin) → is_predicate k ≡ false → v k ≡ w k

-- A diagram that allows at least the given worlds, and none that differs from all of these at more than
-- predicates.
pub record Approximates (d : Domain) (allowed : World → Bool) (r : Option ConstraintNode)
    : Type 0 where
  pub node : ConstraintNode
  pub made : r ≡ some node
  pub formed : Formed d node
  pub keeps : (w : World) → IsWorld d w → allowed w ≡ true → holds w node ≡ true
  pub only :
      (w : World)
      → IsWorld d w
      → holds w node ≡ true
      → (v : World) × IsWorld d v × Agrees w v × (allowed v ≡ true)

any_below_in : (n i : ℕ) (f : ℕ → Bool) → i < n → f i ≡ true → any_below n f ≡ true
any_below_in zero i f h e = absurd (omega arith)
any_below_in (suc n) zero f h e = rw e refl
any_below_in (suc n) (suc i) f h e =
    rw (any_below_in n i (λ k. f (suc k)) (omega arith) e) (or_true (f 0))
  where
    or_true : (x : Bool) → (x || true) ≡ true
    or_true true = refl
    or_true false = refl

any_below_out : (n : ℕ) (f : ℕ → Bool) → any_below n f ≡ true → (i : ℕ) × (i < n) × (f i ≡ true)
any_below_out zero f e = cc
any_below_out (suc n) f e = elim (Bool-cases (f 0)) [
  | inl here ↦ (0, omega arith, here)
  | inr there ↦
      let (i, h, g) = any_below_out n (λ k. f (suc k)) (rw there at e) in (suc i, omega arith, g)
]

-- A diagram reads a world at its joins only.
mutual
  holds-ext :
      (w v : World) (node : ConstraintNode)
      → ((k : BranchJoin) → v k ≡ w k)
      → holds v node ≡ holds w node
  holds-ext w v impossible e = refl
  holds-ext w v unconstrained e = refl
  holds-ext w v (branch k arms) e = rw (e k) (holds_at-ext w v (w k) arms e)

  holds_at-ext :
      (w v : World) (n : ℕ) (arms : Arms)
      → ((k : BranchJoin) → v k ≡ w k)
      → holds_at v n arms ≡ holds_at w n arms
  holds_at-ext w v n end e = refl
  holds_at-ext w v zero (arm a arms) e = holds-ext w v a e
  holds_at-ext w v (suc n) (arm a arms) e = holds_at-ext w v n arms e

assign_self : (d : Domain) (w : World) (j k : BranchJoin) → IsWorld d w → assign w j (w j) k ≡ w k
assign_self d w j k world = elim (Ordering-cases (identity_cmp k j)) [
  | inl e ↦ rw (e, assign) refl
  | inr (inl e) ↦ rw (e, assign) (sym (world.respects k j e))
  | inr (inr e) ↦ rw (e, assign) refl
]

is_predicate_same :
    (j k : BranchJoin) → identity_cmp j k ≡ Ordering.eq → is_predicate j ≡ is_predicate k
unfolding identity_cmp
is_predicate_same j k e =
    let (first, _) =
      then_with-eq _ (option_cmp text_cmp j.predicate_discriminator k.predicate_discriminator) e in
    let (second, _) = then_with-eq _ (origin_cmp j.origin k.origin) first in
    let (third, _) =
      then_with-eq (compare (kind_rank j.kind) (kind_rank k.kind))
        (module_cmp j.module_name k.module_name) second in
    let same : kind_rank j.kind ≡ kind_rank k.kind = ground (arith, third) in
    rw (by_rank j.kind, by_rank k.kind, same) refl
  where
    by_rank : (a : BranchJoinKind) → is_predicate_kind a ≡ (kind_rank a == 2)
    by_rank control = refl
    by_rank binding_choice = refl
    by_rank predicate = refl

assign-Agrees :
    (w : World) (j : BranchJoin) (i : ℕ) → is_predicate j ≡ true → Agrees w (assign w j i)
assign-Agrees w j i e k other = elim (Ordering-cases (identity_cmp k j)) [
  | inl f ↦ rw (f, assign) refl
  | inr (inl f) ↦ let same = is_predicate_same k j f in cc
  | inr (inr f) ↦ rw (f, assign) refl
]

-- What `widen_predicates` may forget.
abbrev Forgettable : Domain → BranchJoin → Type 0
Forgettable d j = InDomain d j × (is_predicate j ≡ true)

module _ (d : Domain) (domain : IsDomain d) where
  forget_joins-Approximates :
      (joins : List BranchJoin) (a : ConstraintNode)
      → All (Forgettable d) joins
      → Formed d a
      → Approximates d (λ w. holds w a) (forget_joins joins a)
  forget_joins-Approximates [] a all formed = record {
    node = a;
    made = refl;
    formed = formed;
    keeps = λ w world e. e;
    only = λ w world e. (w, world, λ k other. refl, e);
  }
  forget_joins-Approximates (j ∷ joins) a ((own, predicates), all) formed =
      let first = forget-Makes d domain j a own formed in
      let rest = forget_joins-Approximates joins first.node all first.formed in
      record {
        node = rest.node;
        made = rw first.made rest.made;
        formed = rest.formed;
        keeps = λ w world e.
            let itself = holds-ext w (assign w j (w j)) a (λ k. assign_self d w j k world) in
            let some_arm =
              any_below_in (d j) (w j) (λ i. holds (assign w j i) a) (world.within j)
                (itself ∙ e) in
            rest.keeps w world (first.means w world ∙ some_arm);
        only = λ w world e.
            let (v, v_world, agrees, f) = rest.only w world e in
            let (i, small, g) =
              any_below_out (d j) (λ i. holds (assign v j i) a) (sym (first.means v v_world) ∙ f) in
            (
              assign v j i,
              assign-IsWorld d v j i domain v_world small,
              λ k other. assign-Agrees v j i predicates k other ∙ agrees k other,
              g,
            );
      }

  predicates_of-Forgettable :
      (joins : List BranchJoin) → All (InDomain d) joins → All (Forgettable d) (predicates_of joins)
  predicates_of-Forgettable [] all = tt
  predicates_of-Forgettable (j ∷ joins) (own, all) = elim (Bool-cases (is_predicate j)) [
    | inl e ↦ rw (e, predicates_of) ((own, e), predicates_of-Forgettable joins all)
    | inr e ↦ rw (e, predicates_of) (predicates_of-Forgettable joins all)
  ]

  insert_join-All :
      (P : BranchJoin → Type 0) (j : BranchJoin) (joins : List BranchJoin)
      → P j
      → All P joins
      → All P (insert_join j joins)
  insert_join-All P j [] p all = (p, tt)
  insert_join-All P j (k ∷ joins) p (q, all) = elim (Ordering-cases (join_cmp j k)) [
    | inl e ↦ rw (e, insert_join) (p, (q, all))
    | inr (inl e) ↦ rw (e, insert_join) (p, (q, all))
    | inr (inr e) ↦ rw (e, insert_join) (q, insert_join-All P j joins p all)
  ]

  sort_joins-All :
      (P : BranchJoin → Type 0) (joins : List BranchJoin) → All P joins → All P (sort_joins joins)
  sort_joins-All P [] all = tt
  sort_joins-All P (j ∷ joins) (p, all) =
      insert_join-All P j (sort_joins joins) p (sort_joins-All P joins all)

  skip-All :
      (P : BranchJoin → Type 0) (n : ℕ) (joins : List BranchJoin)
      → All P joins
      → All P (skip n joins)
  skip-All P zero joins all = all
  skip-All P (suc n) [] all = tt
  skip-All P (suc n) (j ∷ joins) all = skip-All P n joins all.1

  pub widen_predicates-Approximates :
      (a : ConstraintNode) → Formed d a → Approximates d (λ w. holds w a) (widen_predicates a)
  unfolding widen_predicates
  widen_predicates-Approximates a formed =
      let (joins, e, all) = collect_joins-Collected d domain a [] formed tt in
      rw e (
        forget_joins-Approximates _ a
          (skip-All (Forgettable d) max_tracked_predicates _
            (sort_joins-All (Forgettable d) _ (predicates_of-Forgettable joins all)))
          formed)
