-- ===== src/Templates/Parser/Rounds.antt =====
-- The cursor of crates/djls-templates/src/parser.rs on a list that ends in `Eof`, and its inner loops.
use django_language_server.Base.{
  ℕ, zero, suc, ◌+◌, ◌-◌, ◌≤◌, max, Bool, true, false, ◌==◌, ◌≡◌, refl, sym, ap, ◌∙◌, some, List,
  [], ◌∷◌, ◌++◌, length, get_elem?, length-append, All, append_assoc, arith, inl, inr, Bool-cases,
  not,
}
use django_language_server.Base.Result.{ok}
use django_language_server.Source.Position.{span_end}
use django_language_server.Templates.Tokens.{Token, full_span_or_fallback}
use django_language_server.Templates.Parser.{
  Parser, is_at_end, peek, peek_previous, consume, is_plain, is_sync_point, text_loop,
  synchronize_loop,
}
use django_language_server.Templates.Parser.Grammar.{run_end, StopsAt, is_special}

-- The tokens from the cursor on are `rest`, and then the last one.
pub record At (p : Parser) (rest : List Token) : Type 0 where
  pub before : List Token
  pub split : p.tokens ≡ before ++ (rest ++ Token.eof ∷ [])
  pub here : p.current ≡ length before

-- The token before the cursor.
abbrev pub Behind : Parser → Token → Type 0
Behind p token = peek_previous p ≡ ok token

get_elem?_mid {ℓ} :
    {A : Type ℓ} (before : List A) (x : A) (after : List A)
    → get_elem? (before ++ x ∷ after) (length before) ≡ some x
get_elem?_mid [] x after = refl
get_elem?_mid (y ∷ before) x after = get_elem?_mid before x after

pub length_at :
    (p : Parser) (rest : List Token) → At p rest → length p.tokens ≡ p.current + length rest + 1
length_at p rest at = omega (
  arith,
  ap (λ (ts : List Token). length ts) at.split,
  at.here,
  length-append at.before (rest ++ Token.eof ∷ []),
  length-append rest (Token.eof ∷ []),
)

pub at_end_nil : (p : Parser) → At p [] → is_at_end p ≡ true
at_end_nil p at = ground (arith, length_at p [] at)

pub at_end_cons :
    (p : Parser) (t : Token) (rest : List Token) → At p (t ∷ rest) → is_at_end p ≡ false
at_end_cons p t rest at = ground (arith, length_at p (t ∷ rest) at)

get_here :
    (p : Parser) (t : Token) (rest : List Token)
    → At p (t ∷ rest)
    → get_elem? p.tokens p.current ≡ some t
get_here p t rest at = rw (at.split, at.here) (get_elem?_mid at.before t (rest ++ Token.eof ∷ []))

pub peek_cons : (p : Parser) (t : Token) (rest : List Token) → At p (t ∷ rest) → peek p ≡ ok t
peek_cons p t rest at = rw (get_here p t rest at) refl

pub peek_nil : (p : Parser) → At p [] → peek p ≡ ok Token.eof
peek_nil p at =
    let last : get_elem? p.tokens p.current ≡ some Token.eof =
      rw (at.split, at.here) (get_elem?_mid at.before Token.eof []) in
    rw last refl

abbrev pub advance : Parser → Parser
advance p = record p { current = p.current + 1 }

pub At-advance :
    (p : Parser) (t : Token) (rest : List Token) → At p (t ∷ rest) → At (advance p) rest
At-advance p t rest at = record {
  before = at.before ++ t ∷ [];
  split = at.split ∙ sym (append_assoc at.before (t ∷ []) (rest ++ Token.eof ∷ []));
  here = omega (arith, at.here, length-append at.before (t ∷ []));
}

pub Behind-advance :
    (p : Parser) (t : Token) (rest : List Token) → At p (t ∷ rest) → Behind (advance p) t
Behind-advance p t rest at =
    let front : (p.current + 1 == 0) ≡ false = ground arith in
    let back : p.current + 1 - 1 ≡ p.current = omega arith in
    rw (front, back, get_here p t rest at) refl

pub consume_cons :
    (p : Parser) (t : Token) (rest : List Token) → At p (t ∷ rest) → consume p ≡ (ok t, advance p)
unfolding consume
consume_cons p t rest at =
    rw (at_end_cons p t rest at) (ap (λ r. (r, advance p)) (Behind-advance p t rest at))

-- Where a loop over the tokens that fail a test stops.
pub record Stops (stop : Token → Bool) (rest : List Token) (p' : Parser) : Type 0 where
  pub run : List Token
  pub later : List Token
  pub split : rest ≡ run ++ later
  pub passed : All (λ t. stop t ≡ false) run
  pub stops : StopsAt stop later
  pub at : At p' later

abbrev pub Stops-nil : (stop : Token → Bool) (p : Parser) → At p [] → Stops stop [] p
Stops-nil stop p at = record {
  run = [];
  later = [];
  split = refl;
  passed = tt;
  stops = tt;
  at = at;
}

abbrev pub Stops-here :
    (stop : Token → Bool) (p : Parser) (t : Token) (rest : List Token)
    → At p (t ∷ rest)
    → stop t ≡ true
    → Stops stop (t ∷ rest) p
Stops-here stop p t rest at h = record {
  run = [];
  later = t ∷ rest;
  split = refl;
  passed = tt;
  stops = h;
  at = at;
}

abbrev pub Stops-cons :
    (stop : Token → Bool) (p' : Parser) (t : Token) (rest : List Token)
    → stop t ≡ false
    → Stops stop rest p'
    → Stops stop (t ∷ rest) p'
Stops-cons stop p' t rest h s = record {
  run = t ∷ s.run;
  later = s.later;
  split = ap (λ (ts : List Token). t ∷ ts) s.split;
  passed = (h, s.passed);
  stops = s.stops;
  at = s.at;
}

pub special-plain : (t : Token) → is_special t ≡ not (is_plain t)
special-plain (Token.block c s) = refl
special-plain (Token.comment c s) = refl
special-plain (Token.error c s d) = refl
special-plain Token.eof = refl
special-plain (Token.newline s) = refl
special-plain (Token.text c s) = refl
special-plain (Token.variable c s) = refl
special-plain (Token.whitespace s) = refl

pub text_loop-Stops :
    (fuel : ℕ) (p : Parser) (end : ℕ) (rest : List Token)
    → At p rest
    → length rest ≤ fuel
    → (s : Stops is_special rest (text_loop fuel p end).1) × ((text_loop fuel p end).0
        ≡ ok (run_end end s.run))
unfolding text_loop
text_loop-Stops zero p end [] at enough = (Stops-nil is_special p at, refl)
text_loop-Stops zero p end (t ∷ rest) at enough = absurd (omega arith)
text_loop-Stops (suc fuel) p end [] at enough =
    rw (peek_nil p at, text_loop) (Stops-nil is_special p at, refl)
text_loop-Stops (suc fuel) p end (t ∷ rest) at enough = elim (Bool-cases (is_plain t)) [
  | inl plain ↦
      let later =
        text_loop-Stops fuel (advance p) (max end (span_end (full_span_or_fallback t))) rest
          (At-advance p t rest at) (omega arith) in
      let step = consume_cons p t rest at in
      rw (peek_cons p t rest at, plain, step, step, text_loop)
        (
          Stops-cons is_special
              (text_loop fuel (advance p) (max end (span_end (full_span_or_fallback t)))).1 t rest
              (rw (special-plain t, plain) refl) later.0,
          later.1,
        )
  | inr special ↦
      rw (peek_cons p t rest at, special, text_loop)
        (Stops-here is_special p t rest at (rw (special-plain t, special) refl), refl)
]

pub synchronize_loop-Stops :
    (fuel : ℕ) (p : Parser) (rest : List Token)
    → At p rest
    → length rest ≤ fuel
    → Stops is_sync_point rest (synchronize_loop fuel p).1
unfolding synchronize_loop
synchronize_loop-Stops zero p [] at enough = Stops-nil is_sync_point p at
synchronize_loop-Stops zero p (t ∷ rest) at enough = absurd (omega arith)
synchronize_loop-Stops (suc fuel) p [] at enough =
    rw (at_end_nil p at, synchronize_loop) (Stops-nil is_sync_point p at)
synchronize_loop-Stops (suc fuel) p (t ∷ rest) at enough = elim (Bool-cases (is_sync_point t)) [
  | inl stop ↦
      rw (at_end_cons p t rest at, peek_cons p t rest at, stop, synchronize_loop)
        (Stops-here is_sync_point p t rest at stop)
  | inr past ↦
      let later =
        synchronize_loop-Stops fuel (advance p) rest (At-advance p t rest at) (omega arith) in
      let step = consume_cons p t rest at in
      rw (at_end_cons p t rest at, peek_cons p t rest at, past, step, step, synchronize_loop)
        (Stops-cons is_sync_point (synchronize_loop fuel (advance p)).1 t rest past later)
]
