-- ===== src/Templates/Memchr.antt =====
-- The two searches that the lexer takes from the crate memchr, with what its documentation promises,
-- and a plain search that keeps the promises.
use django_language_server.Base.{
  ℕ, zero, suc, ◌+◌, ◌≤◌, ◌<◌, ◌≡◌, inl, inr, Bool, true, false, ◌||◌, ◌==◌, if◌then◌else◌, Option,
  none, some, [], ◌∷◌, length, get_elem?, arith, Bool-cases, Option-cases,
}
use django_language_server.Base.Text.{Bytes, starts_with}
use Prim.Native.Nat.add
use mathlib.Core.Option

-- `needle` stands in the haystack at `p`.
abbrev pub OccursAt : Bytes → Bytes → ℕ → Type 0
OccursAt haystack needle p =
    (i : ℕ) → i < length needle → get_elem? haystack (p + i) ≡ get_elem? needle i

abbrev pub one_of : ℕ → ℕ → ℕ → ℕ → Bool
one_of a b c x = x == a || x == b || x == c

pub record Memchr : Type 0 where
  -- `memchr3` is the first place that holds one of three bytes.
  pub memchr3 : ℕ → ℕ → ℕ → Bytes → Option ℕ
  pub memchr3_found :
      (a b c : ℕ) (h : Bytes) (p : ℕ)
      → memchr3 a b c h ≡ some p
      → (x : ℕ) × (get_elem? h p ≡ some x) × (one_of a b c x ≡ true)
  pub memchr3_first :
      (a b c : ℕ) (h : Bytes) (p q x : ℕ)
      → memchr3 a b c h ≡ some p
      → q < p
      → get_elem? h q ≡ some x
      → one_of a b c x ≡ false
  pub memchr3_none :
      (a b c : ℕ) (h : Bytes) (q x : ℕ)
      → memchr3 a b c h ≡ none
      → get_elem? h q ≡ some x
      → one_of a b c x ≡ false
  -- `memmem::find` is a place at which the needle stands, and finds it where it stands.
  pub find : Bytes → Bytes → Option ℕ
  pub find_found :
      (haystack needle : Bytes) (p : ℕ) → find haystack needle ≡ some p → OccursAt haystack needle p
  pub find_none :
      (haystack needle : Bytes) (p : ℕ)
      → find haystack needle ≡ none
      → p ≤ length haystack
      → OccursAt haystack needle p
      → ⊥

unfoldable pub plain_memchr3 : ℕ → ℕ → ℕ → Bytes → Option ℕ
plain_memchr3 a b c [] = none
plain_memchr3 a b c (x ∷ h) =
    if one_of a b c x then some 0 else Option.map suc (plain_memchr3 a b c h)

unfoldable pub plain_find : Bytes → Bytes → Option ℕ
plain_find [] needle = if starts_with [] needle then some 0 else none
plain_find (x ∷ h) needle =
    if starts_with (x ∷ h) needle then some 0 else Option.map suc (plain_find h needle)

pred_some : (o : Option ℕ) (p : ℕ) → Option.map suc o ≡ some (suc p) → o ≡ some p
pred_some none p e = cc
pred_some (some q) p e = cc

pub plain_found :
    (a b c : ℕ) (h : Bytes) (p : ℕ)
    → plain_memchr3 a b c h ≡ some p
    → (x : ℕ) × (get_elem? h p ≡ some x) × (one_of a b c x ≡ true)
unfolding plain_memchr3
plain_found a b c [] p e = cc
plain_found a b c (x ∷ h) p e = elim (Bool-cases (one_of a b c x)) [
  | inl here ↦ let first : p ≡ 0 = ground (arith, here) in (x, rw first, here)
  | inr past ↦ elim (Option-cases (plain_memchr3 a b c h)) [
    | inl stop ↦ cc (rw (past, stop) at e)
    | inr (q, later) ↦
        let (y, at_q, hit) = plain_found a b c h q later in
        let next : p ≡ suc q = ground (arith, past, later) in (y, rw next at_q, hit)
  ]
]

pub plain_first :
    (a b c : ℕ) (h : Bytes) (p q x : ℕ)
    → plain_memchr3 a b c h ≡ some p
    → q < p
    → get_elem? h q ≡ some x
    → one_of a b c x ≡ false
unfolding plain_memchr3
plain_first a b c [] p q x e lt at_q = cc
plain_first a b c (y ∷ h) p zero x e lt at_q = ground arith
plain_first a b c (y ∷ h) zero (suc q) x e lt at_q = absurd (omega arith)
plain_first a b c (y ∷ h) (suc p) (suc q) x e lt at_q =
    plain_first a b c h p q x (ground (arith, pred_some (plain_memchr3 a b c h) p)) (omega arith)
      at_q

pub plain_none :
    (a b c : ℕ) (h : Bytes) (q x : ℕ)
    → plain_memchr3 a b c h ≡ none
    → get_elem? h q ≡ some x
    → one_of a b c x ≡ false
unfolding plain_memchr3
plain_none a b c [] q x e at_q = cc
plain_none a b c (y ∷ h) zero x e at_q = ground arith
plain_none a b c (y ∷ h) (suc q) x e at_q = plain_none a b c h q x (ground arith) at_q

starts_with-OccursAt : (h needle : Bytes) → starts_with h needle ≡ true → OccursAt h needle 0
unfolding starts_with
starts_with-OccursAt h [] e i lt = elim lt [ ]
starts_with-OccursAt [] (n ∷ needle) e i lt = cc
starts_with-OccursAt (x ∷ h) (n ∷ needle) e zero lt = ground arith
starts_with-OccursAt (x ∷ h) (n ∷ needle) e (suc i) lt =
    let rest = starts_with-OccursAt h needle (ground arith) i (omega arith) in
    rw (add.zero (suc i)) (rw (add.zero i) at rest)

OccursAt-starts_with : (h needle : Bytes) → OccursAt h needle 0 → starts_with h needle ≡ true
unfolding starts_with
OccursAt-starts_with h [] o = ground arith
OccursAt-starts_with [] (n ∷ needle) o = cc (o 0 (omega arith))
OccursAt-starts_with (x ∷ h) (n ∷ needle) o =
    let rest =
      OccursAt-starts_with h needle
        (λ i lt. rw (add.zero i) (rw (add.zero (suc i)) at (o (suc i) (omega arith)))) in
    ground (arith, o 0 (omega arith), rest)

OccursAt-suc :
    (x : ℕ) (h needle : Bytes) (p : ℕ) → OccursAt h needle p → OccursAt (x ∷ h) needle (suc p)
OccursAt-suc x h needle p o i lt = rw (add.suc p i) (o i lt)

OccursAt-pred :
    (x : ℕ) (h needle : Bytes) (p : ℕ) → OccursAt (x ∷ h) needle (suc p) → OccursAt h needle p
OccursAt-pred x h needle p o i lt = rw (add.suc p i) at (o i lt)

pub plain_find_found :
    (h needle : Bytes) (p : ℕ) → plain_find h needle ≡ some p → OccursAt h needle p
unfolding plain_find
plain_find_found [] needle zero e = starts_with-OccursAt [] needle (ground arith)
plain_find_found [] needle (suc p) e = ground arith
plain_find_found (x ∷ h) needle zero e = starts_with-OccursAt (x ∷ h) needle (ground arith)
plain_find_found (x ∷ h) needle (suc p) e =
    OccursAt-suc x h needle p
      (plain_find_found h needle p (ground (arith, pred_some (plain_find h needle) p)))

pub plain_find-none :
    (h needle : Bytes) (p : ℕ) → plain_find h needle ≡ none → p ≤ length h → OccursAt h needle p → ⊥
unfolding plain_find
plain_find-none [] needle zero e le o = ground (arith, OccursAt-starts_with [] needle o)
plain_find-none [] needle (suc p) e le o = absurd (omega arith)
plain_find-none (x ∷ h) needle zero e le o = ground (arith, OccursAt-starts_with (x ∷ h) needle o)
plain_find-none (x ∷ h) needle (suc p) e le o =
    plain_find-none h needle p (ground arith) (omega arith) (OccursAt-pred x h needle p o)

-- The promises can be kept.
abbrev pub plain : Memchr
plain = record {
  memchr3 = plain_memchr3;
  memchr3_found = plain_found;
  memchr3_first = plain_first;
  memchr3_none = plain_none;
  find = plain_find;
  find_found = plain_find_found;
  find_none = plain_find-none;
}
