-- ===== src/Python/Constraints/Worlds.antt =====
-- What a diagram of crates/djls-project/src/python/evaluation/constraints.rs means: the worlds, which
-- choose an arm of each join, that it allows; and when a diagram is in canonical form.
use django_language_server.Base.{
  ℕ, zero, suc, ◌<◌, Bool, true, false, ◌≡◌, refl, sym, ==_iff, Option, none, some, arith, ◌⊎◌, inl,
  inr, Bool-cases, Option-cases,
}
use django_language_server.Base.Ordering.{Ordering}
use django_language_server.Python.Constraints.Joins.{BranchJoin, identity_cmp, identity-Lawful}
use django_language_server.Python.Constraints.Diagram.{
  ConstraintNode, impossible, unconstrained, branch, Arms, end, arm, count, ConstraintNode-discrete,
  all_equal, shared, new_branch,
}

-- The number of arms at each coordinate.
abbrev pub Domain : Type 0
Domain = BranchJoin → ℕ

pub record IsDomain (d : Domain) : Type 0 where
  pub positive : (j : BranchJoin) → 0 < d j
  pub respects : (j k : BranchJoin) → identity_cmp j k ≡ Ordering.eq → d j ≡ d k

-- The arm that is taken at each coordinate.
abbrev pub World : Type 0
World = BranchJoin → ℕ

pub record IsWorld (d : Domain) (w : World) : Type 0 where
  pub within : (j : BranchJoin) → w j < d j
  pub respects : (j k : BranchJoin) → identity_cmp j k ≡ Ordering.eq → w j ≡ w k

abbrev mutual
  pub holds : World → ConstraintNode → Bool
  holds w impossible = false
  holds w unconstrained = true
  holds w (branch join arms) = holds_at w (w join) arms

  pub holds_at : World → ℕ → Arms → Bool
  holds_at w i end = false
  holds_at w zero (arm a arms) = holds w a
  holds_at w (suc i) (arm a arms) = holds_at w i arms

-- The join of a branch is behind `j`.
abbrev pub Above : BranchJoin → ConstraintNode → Type 0
Above j impossible = Unit
Above j unconstrained = Unit
Above j (branch k arms) = identity_cmp j k ≡ Ordering.lt

-- Canonical form: the joins increase along each path, each has an arm for each value of its domain, and
-- no branch could be reduced.
abbrev mutual
  pub Formed : Domain → ConstraintNode → Type 0
  Formed d impossible = Unit
  Formed d unconstrained = Unit
  Formed d (branch j arms) =
      (j.arm_count ≡ d j) × (count arms ≡ j.arm_count) × (shared arms ≡ none) × Formeds d j arms

  pub Formeds : Domain → BranchJoin → Arms → Type 0
  Formeds d j end = Unit
  Formeds d j (arm a arms) = Above j a × Formed d a × Formeds d j arms

pub Above-trans :
    (j k : BranchJoin) (node : ConstraintNode)
    → identity_cmp j k ≡ Ordering.lt
    → Above k node
    → Above j node
Above-trans j k impossible e above = tt
Above-trans j k unconstrained e above = tt
Above-trans j k (branch l arms) e above = identity-Lawful.trans j k l e above

pub Above-same :
    (j k : BranchJoin) (node : ConstraintNode)
    → identity_cmp j k ≡ Ordering.eq
    → Above k node
    → Above j node
Above-same j k impossible e above = tt
Above-same j k unconstrained e above = tt
Above-same j k (branch l arms) e above = rw (identity-Lawful.same j k l e) above

pub Dec-cases {ℓ} : {A : Type ℓ} (d : Dec A) → ((a : A) × (d ≡ yes a)) ⊎ ((n : ¬ A) × (d ≡ no n))
Dec-cases (yes a) = inl (a, refl)
Dec-cases (no n) = inr (n, refl)

pub all_equal-arm :
    (first a : ConstraintNode) (arms : Arms)
    → all_equal first (arm a arms) ≡ true
    → (a ≡ first) × (all_equal first arms ≡ true)
all_equal-arm first a arms e = elim (Dec-cases (ConstraintNode-discrete a first)) [
  | inl (same, s) ↦ (same, rw (s, all_equal) at e)
  | inr (other, s) ↦ let f : false ≡ true = rw (s, all_equal) at e in cc
]

-- Arms that are all equal allow what one of them allows.
all_equal-holds :
    (first : ConstraintNode) (arms : Arms) (w : World) (i : ℕ)
    → all_equal first arms ≡ true
    → i < count arms
    → holds_at w i arms ≡ holds w first
all_equal-holds first end w i e h = absurd (omega arith)
all_equal-holds first (arm a arms) w zero e h = rw (all_equal-arm first a arms e).0 refl
all_equal-holds first (arm a arms) w (suc i) e h =
    all_equal-holds first arms w i (all_equal-arm first a arms e).1 (omega arith)

-- A shared child is one of the arms, and all of them.
pub shared-first :
    (arms : Arms) (first : ConstraintNode)
    → shared arms ≡ some first
    → (rest : Arms) × (arms ≡ arm first rest) × (all_equal first arms ≡ true)
shared-first end first e = cc
shared-first (arm a arms) first e = elim (Bool-cases (all_equal a (arm a arms))) [
  | inl all ↦
      let shown : some a ≡ some first = rw all at e in
      let same : a ≡ first = cc in (arms, rw same refl, rw (sym same) all)
  | inr some_differ ↦ let shown : none ≡ some first = rw some_differ at e in cc
]

-- What `ConstraintNode::branch` builds.
pub record Builds (d : Domain) (j : BranchJoin) (arms : Arms) (r : Option ConstraintNode)
    : Type 0 where
  pub node : ConstraintNode
  pub built : r ≡ some node
  pub formed : Formed d node
  pub above : (k : BranchJoin) → identity_cmp k j ≡ Ordering.lt → Above k node
  pub means : (w : World) → w j < d j → holds w node ≡ holds_at w (w j) arms

pub new_branch-Builds :
    (d : Domain) (j : BranchJoin) (arms : Arms)
    → j.arm_count ≡ d j
    → count arms ≡ j.arm_count
    → Formeds d j arms
    → Builds d j arms (new_branch j arms)
unfolding new_branch
new_branch-Builds d j arms domain covers formeds = elim (Option-cases (shared arms)) [
  | inl distinct ↦ record {
    node = branch j arms;
    built = rw (distinct, (==_iff (count arms) j.arm_count).1 covers) refl;
    formed = (domain, covers, distinct, formeds);
    above = λ k e. e;
    means = λ w within. refl;
  }
  | inr (first, s) ↦
      let (rest, split, all) = shared-first arms first s in
      let parts : Formeds d j (arm first rest) = rw split at formeds in
      record {
        node = first;
        built = rw (s, (==_iff (count arms) j.arm_count).1 covers) refl;
        formed = parts.1;
        above = λ k e. Above-trans k j first e parts.0;
        means = λ w within.
            sym (all_equal-holds first arms w (w j) all (omega (arith, within, covers, domain)));
      }
]
