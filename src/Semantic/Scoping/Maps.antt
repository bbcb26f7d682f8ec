-- ===== src/Semantic/Scoping/Maps.antt =====
-- `BTreeMap` by text, as the list of its entries, and `entry(key).or_default()`.
use django_language_server.Base.{
  false, ◌≡◌, refl, if◌then◌else◌, Option, none, some, unwrap_or, List, [], ◌∷◌, Bool-cases, inl,
  inr,
}
use django_language_server.Base.Text.{Text, text_eq}
use django_language_server.Base.Text.Slices.{text_eq_iff}

module _ {A : Type 0} where
  abbrev pub get : List (Text × A) → Text → Option A
  get [] key = none
  get ((k, v) ∷ rest) key = if text_eq k key then some v else get rest key

  -- The value of the key, or else a default, is changed.
  abbrev pub entry : List (Text × A) → Text → A → (A → A) → List (Text × A)
  entry [] key default change = (key, change default) ∷ []
  entry ((k, v) ∷ rest) key default change =
      let later = entry rest key default change in
      if text_eq k key then (k, change v) ∷ rest else (k, v) ∷ later

  pub get-entry :
      (m : List (Text × A)) (key : Text) (default : A) (change : A → A)
      → get (entry m key default change) key ≡ some (change (unwrap_or (get m key) default))
  get-entry [] key default change = rw ((text_eq_iff key key).1 refl, get) refl
  get-entry ((k, v) ∷ rest) key default change = elim (Bool-cases (text_eq k key)) [
    | inl same ↦ rw (same, entry, same, get) refl
    | inr other ↦ rw (other, entry, other, get) (get-entry rest key default change)
  ]

  pub get-entry_other :
      (m : List (Text × A)) (key other : Text) (default : A) (change : A → A)
      → text_eq key other ≡ false
      → get (entry m key default change) other ≡ get m other
  get-entry_other [] key other default change differ = rw (differ, get) refl
  get-entry_other ((k, v) ∷ rest) key other default change differ =
      elim (Bool-cases (text_eq k key)) [
        | inl same ↦
            let k_key : k ≡ key = (text_eq_iff k key).0 same in
            let k_differs : text_eq k other ≡ false = rw k_key differ in
            rw (same, entry, k_differs, get) refl
        | inr apart ↦
            rw (apart, entry, get, get-entry_other rest key other default change differ) refl
      ]
