-- ===== src/Database/Distinct.antt =====
-- Tables with a UNIQUE name.
use the_brain.Prelude.{
  ◌∙◌, inr, inl, Bool-cases, refl, ap, ◌≡◌, Bool, true, false, List, [], ◌∷◌, ◌++◌, arith, any,
  keep, ◌==◌, eq_iff, if◌then◌else◌,
}
use the_brain.Text.{Text, text_eq}
use the_brain.Database.Rows.{update_where}

module _ {ℓ} {A : Type ℓ} (name : A → Text) where
  abbrev has_name : Text → A → Bool
  has_name n r = name r == n

  -- No two rows have one name.
  abbrev pub Distinct : List A → Type 0
  Distinct [] = Unit
  Distinct (r ∷ rows) = (any (has_name (name r)) rows ≡ false) × Distinct rows

  any-append_last :
      (n : Text) (row : A) (rows : List A)
      → any (has_name n) rows ≡ false
      → (name row == n) ≡ false
      → any (has_name n) (rows ++ row ∷ []) ≡ false
  unfolding any
  any-append_last n row [] h k = rw k
  any-append_last n row (r ∷ rows) h k = ground (arith, any-append_last n row rows)

  pub Distinct-append :
      (row : A) (rows : List A)
      → any (has_name (name row)) rows ≡ false
      → Distinct rows
      → Distinct (rows ++ row ∷ [])
  unfolding any
  Distinct-append row [] h d = (refl, tt)
  Distinct-append row (r ∷ rows) h (fresh, d) = (
    any-append_last (name r) row rows fresh
        (ground (arith, eq_iff (name r) (name row), eq_iff (name row) (name r))),
    Distinct-append row rows (ground arith) d,
  )

  module _ (p : A → Bool) (f : A → A) (same : (r : A) → name (f r) ≡ name r) where
    any-update_where_named :
        (n : Text) (rows : List A)
        → any (has_name n) (update_where p f rows) ≡ any (has_name n) rows
    unfolding any update_where
    any-update_where_named n [] = refl
    any-update_where_named n (r ∷ rows) =
        ground (arith, ap (λ t. t == n) (same r), any-update_where_named n rows)

    same_if : (b : Bool) (r : A) → name (if b then f r else r) ≡ name r
    same_if true r = same r
    same_if false r = refl

    pub Distinct-update_where : (rows : List A) → Distinct rows → Distinct (update_where p f rows)
    unfolding update_where
    Distinct-update_where [] d = tt
    Distinct-update_where (r ∷ rows) (fresh, d) = (
      ap (λ n. any (has_name n) (update_where p f rows)) (same_if (p r) r)
          ∙ any-update_where_named (name r) rows
          ∙ fresh,
      Distinct-update_where rows d,
    )

  any-keep_none :
      (n : Text) (p : A → Bool) (rows : List A)
      → any (has_name n) rows ≡ false
      → any (has_name n) (keep p rows) ≡ false
  unfolding any keep
  any-keep_none n p [] h = refl
  any-keep_none n p (r ∷ rows) h = ground (arith, any-keep_none n p rows)

  pub Distinct-keep : (p : A → Bool) (rows : List A) → Distinct rows → Distinct (keep p rows)
  unfolding keep
  Distinct-keep p [] d = tt
  Distinct-keep p (r ∷ rows) (fresh, d) = elim (Bool-cases (p r)) [
    | inl e ↦ rw e (any-keep_none (name r) p rows fresh, Distinct-keep p rows d)
    | inr e ↦ rw e (Distinct-keep p rows d)
  ]
