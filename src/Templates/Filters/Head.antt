-- ===== src/Templates/Filters/Head.antt =====
-- The name and the argument of a filter of crates/djls-templates/src/filters.rs.
use django_language_server.Base.{
  ℕ, ◌+◌, ◌-◌, ◌%◌, ◌^◌, ◌≡◌, refl, ap, ◌∙◌, append_assoc, Option, none, some, [], ◌∷◌, ◌++◌, inl,
  true, false, All, Bool-cases, ◌≢◌, ◌⊎◌, inr, to_u32, arith,
}
use django_language_server.Base.Text.{
  Text, byte_len, len_utf8, slice_to, slice_from, trim, trim_start, is_whitespace,
}
use django_language_server.Base.Result.{Result, ok, err}
use django_language_server.Source.Position.{span_of, saturating_from_parts_usize}
use django_language_server.Base.Text.Slices.{slice_to-append, slice_from-append, byte_len-append}
use django_language_server.Templates.Quotes.{State, new, first_unquoted_delimiter_index}
use django_language_server.Templates.Quotes.Scan.{run, IsClean, Scans-cases, next_loop-Scans}
use django_language_server.Templates.Quotes.Split.{next_lem}
use django_language_server.Templates.Filters.{
  FilterArgument, Filter, FilterParseError, is_empty, parse_filter, name_and_argument,
  filter_argument, make_filter,
}

-- What `trim_start` takes off.
pub record Leads (lead t : Text) : Type 0 where
  pub white : All (λ c. is_whitespace c ≡ true) lead
  pub split : t ≡ lead ++ trim_start t

-- What stands behind the colon, from the offset `start` on: nothing but white space, or an argument.
pub data IsArgument (back : Text) (start : ℕ) : Option FilterArgument → Type 0 where
  missing : trim back ≡ [] → IsArgument back start none
  given :
      (lead : Text)
      → Leads lead back
      → trim back ≢ []
      → IsArgument back start (
          some (record {
            text = trim back;
            span = saturating_from_parts_usize (start + byte_len lead) (byte_len (trim back));
          }))

-- The first colon outside quotes stands between `front` and `back`.
pub record Cuts (t front back : Text) : Type 0 where
  pub split : t ≡ front ++ b':' ∷ back
  pub clean : IsClean b':' State.outside front
  pub out : run State.outside front ≡ State.outside

-- The result for a trimmed filter that stands at an offset.
pub data Reads (t : Text) (offset : ℕ) : Result FilterParseError Filter → Type 0 where
  bare :
      IsClean b':' State.outside t
      → t ≢ []
      → Reads t offset
          (ok (record { name = t; arg = none; span = span_of offset (to_u32 (byte_len t)) }))
  with_argument :
      (front back : Text) (arg : Option FilterArgument)
      → Cuts t front back
      → trim front ≢ []
      → IsArgument back (offset + byte_len front + 1) arg
      → Reads t offset (
          ok (record { name = trim front; arg = arg; span = span_of offset (to_u32 (byte_len t)) }))
  blank : t ≡ [] → Reads t offset (err (record { position = offset; content = t }))
  nameless :
      (front back : Text)
      → Cuts t front back
      → trim front ≡ []
      → Reads t offset (err (record { position = offset; content = t }))

-- The white space at the start of a text.
lead_of : (t : Text) → (lead : Text) × Leads lead t
unfolding trim_start
lead_of [] = ([], record { white = tt; split = refl })
lead_of (c ∷ t) = elim (Bool-cases (is_whitespace c)) [
  | inl e ↦
      let (lead, l) = lead_of t in
      (
        c ∷ lead,
        record {
          white = (e, l.white);
          split = rw (e, trim_start) (ap (λ (u : Text). c ∷ u) l.split);
        },
      )
  | inr e ↦ ([], record { white = tt; split = rw (e, trim_start) refl })
]

lead_length : (lead t : Text) → Leads lead t → byte_len t - byte_len (trim_start t) ≡ byte_len lead
lead_length lead t l =
    let whole : byte_len t ≡ byte_len lead + byte_len (trim_start t) =
      ap byte_len l.split ∙ byte_len-append lead (trim_start t) in
    omega (arith, whole)

empty_cases : (t : Text) → (is_empty t ≡ true) × (t ≡ []) ⊎ ((is_empty t ≡ false) × (t ≢ []))
empty_cases [] = inl (refl, refl)
empty_cases (c ∷ t) = inr (refl, λ e. cc)

filter_argument-IsArgument :
    (back : Text) (offset pos : ℕ)
    → IsArgument back (offset + pos + 1) (filter_argument back offset pos)
filter_argument-IsArgument back offset pos = elim (empty_cases (trim back)) [
  | inl (e, nothing) ↦ rw (e, filter_argument) (missing nothing)
  | inr (e, something) ↦
      let (lead, l) = lead_of back in
      rw (e, filter_argument, lead_length lead back l) (given lead l something)
]

colon_width : len_utf8 b':' ≡ 1
unfolding len_utf8
colon_width = refl

behind_colon : (front back : Text) → slice_from (front ++ b':' ∷ back) (byte_len front + 1) ≡ back
behind_colon front back =
    let len : byte_len (front ++ b':' ∷ []) ≡ byte_len front + 1 =
      omega (arith, byte_len-append front (b':' ∷ []), colon_width) in
    rw len at
      (rw (append_assoc front (b':' ∷ []) back) at (slice_from-append (front ++ b':' ∷ []) back))

make_filter-Reads :
    (t : Text) (offset : ℕ)
    → Reads t offset
        (make_filter t offset (name_and_argument t offset (first_unquoted_delimiter_index t b':')))
make_filter-Reads t offset =
    let step = next_lem (new t b':') [] t refl refl in
    elim (Scans-cases (next_loop-Scans t 0 (new t b':'))) [
      | inl (stop, kept, clean) ↦
          rw (step, stop, name_and_argument)
            (elim (empty_cases t) [
              | inl (e, nothing) ↦ rw e (blank nothing)
              | inr (e, something) ↦ rw e (bare clean something)
            ])
      | inr f ↦
          let at : 0 + byte_len f.front ≡ byte_len f.front = omega arith in
          let index = f.index ∙ ap some at in
          let name =
            ap (λ (u : Text). slice_to u (byte_len f.front)) f.split
            ∙ slice_to-append f.front (b':' ∷ f.back) in
          let rest =
            ap (λ (u : Text). slice_from u (byte_len f.front + 1)) f.split
            ∙ behind_colon f.front f.back in
          let cuts : Cuts t f.front f.back = record {
            split = f.split;
            clean = f.clean;
            out = f.out;
          } in
          rw (step, index, name_and_argument, name, rest)
            (elim (empty_cases (trim f.front)) [
              | inl (e, nothing) ↦ rw e (nameless f.front f.back cuts nothing)
              | inr (e, something) ↦ rw e (
                  with_argument f.front f.back _ cuts something
                    (filter_argument-IsArgument f.back offset (byte_len f.front)))
            ])
    ]

-- A filter is read from its trimmed text, at the offset behind the white space before it. Without a colon
-- outside quotes it is the name; else what stands before the first one, trimmed, is the name, and what
-- stands behind it, trimmed, is the argument with its span, unless it is empty. The filter spans the
-- trimmed text. It is malformed exactly when the name is empty, and the error has the offset and the text.
pub parse_filter-Reads :
    (raw : Text) (base_offset : ℕ)
    → (lead : Text) × Leads lead raw
      × Reads
          (trim raw)
          ((base_offset + to_u32 (byte_len lead)) % 2 ^ 32)
          (parse_filter raw base_offset)
unfolding parse_filter
parse_filter-Reads raw base_offset =
    let (lead, l) = lead_of raw in
    (lead, l, rw (lead_length lead raw l) (make_filter-Reads (trim raw) _))
