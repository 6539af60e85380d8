-- ===== src/Text/Strip.antt =====
-- The white space at the ends of a text.
use the_brain.Prelude.{ℕ, ◌≡◌, refl, false, [], ◌∷◌, inl, inr, Bool-cases}
use the_brain.Text.{keep_unless, Text, is_space, lstrip, rstrip, strip}

-- The first character is no white space.
abbrev Trimmed : Text → Type 0
Trimmed [] = Unit
Trimmed (c ∷ s) = is_space c ≡ false

lstrip-Trimmed : (s : Text) → Trimmed (lstrip s)
unfolding lstrip
lstrip-Trimmed [] = tt
lstrip-Trimmed (c ∷ s) = elim (Bool-cases (is_space c)) [
  | inl blank ↦ rw blank (lstrip-Trimmed s)
  | inr plain ↦ rw plain plain
]

Trimmed-lstrip : (s : Text) → Trimmed s → lstrip s ≡ s
unfolding lstrip
Trimmed-lstrip [] h = refl
Trimmed-lstrip (c ∷ s) h = rw h

keep_unless-Trimmed :
    (c : ℕ) (s : Text) → is_space c ≡ false → Trimmed (keep_unless (is_space c) c s)
keep_unless-Trimmed c [] h = rw h h
keep_unless-Trimmed c (d ∷ s) h = h

rstrip-Trimmed : (s : Text) → Trimmed s → Trimmed (rstrip s)
unfolding rstrip
rstrip-Trimmed [] h = tt
rstrip-Trimmed (c ∷ s) h = keep_unless-Trimmed c (rstrip s) h

rstrip-keep_unless :
    (c : ℕ) (s : Text)
    → rstrip s ≡ s
    → rstrip (keep_unless (is_space c) c s) ≡ keep_unless (is_space c) c s
unfolding rstrip
rstrip-keep_unless c [] h = elim (Bool-cases (is_space c)) [ inl e ↦ rw e | inr e ↦ rw (e, e) ]
rstrip-keep_unless c (d ∷ s) h = rw h

rstrip-rstrip : (s : Text) → rstrip (rstrip s) ≡ rstrip s
unfolding rstrip
rstrip-rstrip [] = refl
rstrip-rstrip (c ∷ s) = rstrip-keep_unless c (rstrip s) (rstrip-rstrip s)

pub strip-strip : (s : Text) → strip (strip s) ≡ strip s
unfolding strip
strip-strip s =
    rw (Trimmed-lstrip (rstrip (lstrip s)) (rstrip-Trimmed (lstrip s) (lstrip-Trimmed s)))
      (rstrip-rstrip (lstrip s))
