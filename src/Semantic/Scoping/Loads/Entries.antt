-- ===== src/Semantic/Scoping/Loads/Entries.antt =====
-- The maps of the index of crates/djls-semantic/src/scoping/loads.rs: where a statement is entered.
use django_language_server.Base.Bools.{||-false}
use django_language_server.Base.{
  ℕ, suc, Bool, ◌≤◌, ◌&&◌, ◌||◌, ◌≡◌, refl, sym, ap, ◌∙◌, any, false, ltb, if◌then◌else◌, Option,
  none, some, unwrap_or, List, [], ◌∷◌, arith, Bool-cases, inl, inr,
}
use django_language_server.Base.Search.{Partitioned, leading, partition_point_lem}
use django_language_server.Base.Text.{Text, text_eq}
use django_language_server.Base.Text.Slices.{text_eq_iff}
use django_language_server.Semantic.Scoping.Maps.{get, entry, get-entry, get-entry_other}
use django_language_server.Semantic.Scoping.Loads.{
  LoadIndex, empty_index, push, has_statement_before, get_in,
}

abbrev pub full_of : LoadIndex → Text → Option (List ℕ)
full_of index library = get index.full_statements_by_library library

abbrev pub selective_of : LoadIndex → Text → Text → Option (List ℕ)
selective_of index library symbol =
    get_in (get index.selective_statements_by_library_symbol library) symbol

abbrev LowBy : ℕ → List ℕ → Type 0
LowBy x [] = Unit
LowBy x (y ∷ ys) = x ≤ y

-- The numbers ascend, up to `i`.
abbrev UpTo : ℕ → List ℕ → Type 0
UpTo i [] = Unit
UpTo i (x ∷ xs) = (x ≤ i) × LowBy x xs × UpTo i xs

abbrev pub Noted : ℕ → Option (List ℕ) → Type 0
Noted i none = Unit
Noted i (some xs) = UpTo i xs

pub record Bounded (i : ℕ) (index : LoadIndex) : Type 0 where
  pub full : (library : Text) → Noted i (full_of index library)
  pub selective : (library symbol : Text) → Noted i (selective_of index library symbol)

UpTo-push : (i : ℕ) (xs : List ℕ) → UpTo i xs → UpTo i (push i xs)
UpTo-push i [] h = (omega arith, tt, tt)
UpTo-push i (x ∷ []) h = (h.0, h.0, UpTo-push i [] tt)
UpTo-push i (x ∷ y ∷ xs) h = (h.0, h.1, UpTo-push i (y ∷ xs) h.2)

none_before :
    (i end x : ℕ) (xs : List ℕ)
    → UpTo i (x ∷ xs)
    → ltb x end ≡ false
    → any (λ k. ltb k end) xs ≡ false
none_before i end x [] h e = refl
none_before i end x (y ∷ xs) h e =
    let later : ltb y end ≡ false = ground (arith, h.1, e) in
    rw later (none_before i end y xs h.2 later)

UpTo-Partitioned : (i end : ℕ) (xs : List ℕ) → UpTo i xs → Partitioned (λ k. ltb k end) xs
UpTo-Partitioned i end [] h = tt
UpTo-Partitioned i end (x ∷ xs) h = (none_before i end x xs h, UpTo-Partitioned i end xs h.2)

Noted-push : (i : ℕ) (v : Option (List ℕ)) → Noted i v → Noted i (some (push i (unwrap_or v [])))
Noted-push i none h = (omega arith, tt, tt)
Noted-push i (some xs) h = UpTo-push i xs h

-- Of numbers that ascend, the first is before the end, or none.
has_first :
    (i end : ℕ) (xs : List ℕ)
    → UpTo i xs
    → has_statement_before (some xs) end ≡ ltb 0 (leading (λ k. ltb k end) xs)
has_first i end xs h =
    ap (λ n. ltb 0 n) (partition_point_lem (λ k. ltb k end) xs (UpTo-Partitioned i end xs h))

both_some : (m n : ℕ) (b : Bool) → ltb 0 (suc m) ≡ (ltb 0 (suc n) || b)
both_some m n b = ground arith

first-push :
    (i end : ℕ) (xs : List ℕ)
    → UpTo i xs
    → ltb 0 (leading (λ k. ltb k end) (push i xs))
      ≡ (ltb 0 (leading (λ k. ltb k end) xs) || ltb i end)
first-push i end [] h = ground arith
first-push i end (x ∷ xs) h =
    let first : x ≤ i = h.0 in
    elim (Bool-cases (ltb x end)) [
      | inl e ↦ rw e (
          both_some (leading (λ k. ltb k end) (push i xs)) (leading (λ k. ltb k end) xs)
            (ltb i end))
      | inr e ↦ let last : ltb i end ≡ false = ground (arith, first, e) in rw (e, last) refl
    ]

has-push :
    (i end : ℕ) (v : Option (List ℕ))
    → Noted i v
    → has_statement_before (some (push i (unwrap_or v []))) end
      ≡ (has_statement_before v end || ltb i end)
has-push i end none h = has_first i end (push i []) (UpTo-push i [] tt) ∙ first-push i end [] tt
has-push i end (some xs) h =
    has_first i end (push i xs) (UpTo-push i xs h)
    ∙ first-push i end xs h
    ∙ ap (λ b. b || ltb i end) (sym (has_first i end xs h))

UpTo-suc : (i : ℕ) (xs : List ℕ) → UpTo i xs → UpTo (suc i) xs
UpTo-suc i [] h = tt
UpTo-suc i (x ∷ xs) h = (omega (arith, h.0), h.1, UpTo-suc i xs h.2)

Noted-suc : (i : ℕ) (v : Option (List ℕ)) → Noted i v → Noted (suc i) v
Noted-suc i none h = tt
Noted-suc i (some xs) h = UpTo-suc i xs h

pub Bounded-suc : (i : ℕ) (index : LoadIndex) → Bounded i index → Bounded (suc i) index
Bounded-suc i index b = record {
  full = λ library. Noted-suc i (full_of index library) (b.full library);
  selective = λ library symbol.
      Noted-suc i (selective_of index library symbol) (b.selective library symbol);
}

pub empty-Bounded : Bounded 0 empty_index
empty-Bounded = record { full = λ library. tt; selective = λ library symbol. tt }

-- A list of statements of a map, with `i` pushed for one key.
pub entry-Noted :
    (i : ℕ) (m : List (Text × List ℕ)) (name key : Text)
    → Noted i (get m key)
    → Noted i (get (entry m name [] (push i)) key)
entry-Noted i m name key h = elim (Bool-cases (text_eq name key)) [
  | inl same ↦
      let name_key : name ≡ key = (text_eq_iff name key).0 same in
      rw (name_key, get-entry m key [] (push i)) (Noted-push i (get m key) h)
  | inr other ↦ rw (get-entry_other m name key [] (push i) other) h
]

pub has-entry :
    (i end : ℕ) (m : List (Text × List ℕ)) (name key : Text)
    → Noted i (get m key)
    → has_statement_before (get (entry m name [] (push i)) key) end
      ≡ (has_statement_before (get m key) end || (text_eq name key && ltb i end))
has-entry i end m name key h = elim (Bool-cases (text_eq name key)) [
  | inl same ↦
      let name_key : name ≡ key = (text_eq_iff name key).0 same in
      let all : has_statement_before (get (entry m name [] (push i)) key) end
          ≡ (has_statement_before (get m key) end || ltb i end) =
        rw (name_key, get-entry m key [] (push i)) (has-push i end (get m key) h) in
      rw (same, all) refl
  | inr other ↦ rw (get-entry_other m name key [] (push i) other, other) (sym (||-false _))
]

-- The same, of a map of maps.
pub get_in-entry :
    (i : ℕ) (m : List (Text × List (Text × List ℕ))) (library name key symbol : Text)
    → get_in (get (entry m library [] (λ symbols. entry symbols name [] (push i))) key) symbol ≡ (
        if text_eq library key
        then get (entry (unwrap_or (get m key) []) name [] (push i)) symbol
        else get_in (get m key) symbol)
get_in-entry i m library name key symbol = elim (Bool-cases (text_eq library key)) [
  | inl same ↦
      let library_key : library ≡ key = (text_eq_iff library key).0 same in
      rw same
        (rw (library_key, get-entry m key [] (λ symbols. entry symbols name [] (push i))) refl)
  | inr other ↦
      rw (get-entry_other m library key [] (λ symbols. entry symbols name [] (push i)) other, other)
        refl
]

pub get_in-unwrap_or :
    (m : Option (List (Text × List ℕ))) (symbol : Text)
    → get (unwrap_or m []) symbol ≡ get_in m symbol
get_in-unwrap_or none symbol = refl
get_in-unwrap_or (some symbols) symbol = refl
