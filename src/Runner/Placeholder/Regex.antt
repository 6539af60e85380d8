-- ===== src/Runner/Placeholder/Regex.antt =====
-- The matches of `_PLACEHOLDER` of src/runner/runner.py that `re.sub` finds in a text.
use the_brain.Prelude.{
  ℕ, ◌≡◌, ◌≢◌, refl, none, some, List, [], ◌∷◌, ◌++◌, map, append-nil, append_assoc, arith, ◌==◌,
  nat_eq, Bool-cases, eq_iff, All, All-append, inl, inr,
}
use the_brain.Text.{Text}
use the_brain.Runner.Placeholder.{Piece, lit, token, close, scan, pieces}

abbrev NoBrace : ℕ → Type 0
NoBrace c = (c ≢ b'{') × (c ≢ b'}')

-- `[^{}]+`
pub record IsName (name : Text) : Type 0 where
  pub not_empty : name ≢ []
  pub no_braces : All (λ c. (c ≢ b'{') × (c ≢ b'}')) name

-- `text` begins with a match of the expression, with this group and this rest behind it.
abbrev pub Matches : Text → Text → Text → Type 0
Matches text name rest = IsName name × (text ≡ b'{' ∷ (name ++ b'}' ∷ rest))

-- What `re.sub` sees in a text.
pub data Tokens : Text → List Piece → Type 0 where
  done : Tokens [] []
  hit :
      {text : Text} (name rest : Text) {ps : List Piece}
      → Matches text name rest
      → Tokens rest ps
      → Tokens text (token name ∷ ps)
  skip :
      (c : ℕ) (s : Text) {ps : List Piece}
      → ((name rest : Text) → ¬ Matches (c ∷ s) name rest)
      → Tokens s ps
      → Tokens (c ∷ s) (lit c ∷ ps)

-- A tail that no name followed by a closing brace begins.
abbrev Unclosed : Text → Type 0
Unclosed tail = (name rest : Text) → All NoBrace name → tail ≢ name ++ b'}' ∷ rest

Unclosed-nil : Unclosed []
Unclosed-nil [] rest h e = cc
Unclosed-nil (n ∷ name) rest h e = cc

Unclosed-brace : (s : Text) → Unclosed (b'{' ∷ s)
Unclosed-brace s [] rest h e = ground arith
Unclosed-brace s (n ∷ name) rest h e = ground arith

Unclosed-append : (acc tail : Text) → All NoBrace acc → Unclosed tail → Unclosed (acc ++ tail)
Unclosed-append [] tail h u = u
Unclosed-append (a ∷ acc) tail h u = under_head (Unclosed-append acc tail h.1 u)
  where
    under_head : Unclosed (acc ++ tail) → Unclosed (a ∷ (acc ++ tail))
    under_head deeper [] rest k e = ground arith
    under_head deeper (n ∷ name) rest k e = deeper name rest k.1 (ground arith)

not-Matches : (s : Text) → Unclosed s → (name rest : Text) → ¬ Matches (b'{' ∷ s) name rest
not-Matches s u name rest (h, e) = u name rest h.no_braces (ground arith)

not-Matches_lit : (c : ℕ) (s : Text) → c ≢ b'{' → (name rest : Text) → ¬ Matches (c ∷ s) name rest
not-Matches_lit c s h name rest (k, e) = ground arith

not-Matches_empty : (s name rest : Text) → ¬ Matches (b'{' ∷ b'}' ∷ s) name rest
not-Matches_empty s [] rest (h, e) = h.not_empty refl
not-Matches_empty s (n ∷ name) rest (h, e) = let p = h.no_braces in ground arith

Tokens-lits :
    (acc s : Text) {ps : List Piece}
    → All NoBrace acc
    → Tokens s ps
    → Tokens (acc ++ s) (map lit acc ++ ps)
Tokens-lits [] s h t = t
Tokens-lits (a ∷ acc) s h t =
    skip a (acc ++ s) (not-Matches_lit a (acc ++ s) h.0.0) (Tokens-lits acc s h.1 t)

-- An open brace that nothing closes is skipped with the characters behind it.
Tokens-Unclosed :
    (acc s : Text) {ps : List Piece}
    → All NoBrace acc
    → Unclosed s
    → Tokens s ps
    → Tokens (b'{' ∷ (acc ++ s)) (lit b'{' ∷ (map lit acc ++ ps))
Tokens-Unclosed acc s h u t =
    skip b'{' (acc ++ s) (not-Matches (acc ++ s) (Unclosed-append acc s h u))
      (Tokens-lits acc s h t)

Tokens-close :
    (acc s : Text) {ps : List Piece}
    → All NoBrace acc
    → Tokens s ps
    → Tokens (b'{' ∷ (acc ++ b'}' ∷ s)) (close acc ps)
Tokens-close [] s h t =
    skip b'{' (b'}' ∷ s) (not-Matches_empty s)
      (skip b'}' s (not-Matches_lit b'}' s (λ e. ground arith)) t)
Tokens-close (a ∷ acc) s h t =
    hit (a ∷ acc) s (record { not_empty = λ e. cc; no_braces = h }, refl) t

module _ (s : Text) (outside : Tokens s (scan none s))
    (inside : (acc : Text) → All NoBrace acc → Tokens (b'{' ∷ (acc ++ s)) (scan (some acc) s)) where
  outside_step : (c : ℕ) → Tokens (c ∷ s) (scan none (c ∷ s))
  unfolding scan
  outside_step c = elim (Bool-cases (c == b'{')) [
    | inl e ↦ rw (e, (eq_iff c b'{').0 e) (inside [] tt)
    | inr e ↦ rw e (skip c s (not-Matches_lit c s (λ p. ground arith)) outside)
  ]

  inside_step :
      (acc : Text) (c : ℕ)
      → All NoBrace acc
      → Tokens (b'{' ∷ (acc ++ c ∷ s)) (scan (some acc) (c ∷ s))
  unfolding scan
  inside_step acc c h = elim (Bool-cases (c == b'{')) [
    | inl e ↦
        rw (e, (eq_iff c b'{').0 e)
          (Tokens-Unclosed acc (b'{' ∷ s) h (Unclosed-brace s) (inside [] tt))
    | inr e ↦ elim (Bool-cases (c == b'}')) [
      | inl k ↦ rw (e, k, (eq_iff c b'}').0 k) (Tokens-close acc s h outside)
      | inr k ↦
          rw (e, k)
            (rw append_assoc at (
              inside (acc ++ c ∷ [])
                (All-append NoBrace acc (c ∷ []) h ((λ p. ground arith, λ p. ground arith), tt))))
    ]
  ]

scan_lem :
    (s : Text)
    → Tokens s (scan none s)
      × ((acc : Text) → All NoBrace acc → Tokens (b'{' ∷ (acc ++ s)) (scan (some acc) s))
unfolding scan
scan_lem [] = (
  done,
  λ acc h. rw (← append-nil (map (λ x. lit x) acc)) (Tokens-Unclosed acc [] h Unclosed-nil done),
)
scan_lem (c ∷ s) = (
  outside_step s (scan_lem s).0 (scan_lem s).1 c,
  λ acc h. inside_step s (scan_lem s).0 (scan_lem s).1 acc c h,
)

-- The pieces of a text are what `re.sub` with `\{([^{}]+)\}` sees in it: at the leftmost place where
-- the expression matches a token, and the search goes on behind the match; every character that no
-- match covers stays.
pub pieces-Tokens : (text : Text) → Tokens text (pieces text)
unfolding pieces
pieces-Tokens text = (scan_lem text).0
