-- ===== src/Database/Rows.antt =====
-- UPDATE and DELETE over the rows of a table.
use the_brain.Prelude.{
  map, ap, true, ◌≡◌, refl, Bool, false, List, [], ◌∷◌, ◌++◌, arith, keep, any, not, if◌then◌else◌,
}

module _ {ℓ} {A : Type ℓ} where
  -- UPDATE … SET … WHERE
  unfoldable pub update_where : (A → Bool) → (A → A) → List A → List A
  update_where p f [] = []
  update_where p f (x ∷ xs) = (if p x then f x else x) ∷ update_where p f xs

  -- DELETE … WHERE
  unfoldable pub delete_where : (A → Bool) → List A → List A
  unfolding keep
  delete_where p = keep (λ x. not (p x))

  -- An update that makes no row pass the test leaves none that passes it.
  pub any-update_where :
      (p : A → Bool) (f : A → A) (done : (x : A) → p (f x) ≡ false) (xs : List A)
      → any p (update_where p f xs) ≡ false
  unfolding any update_where
  any-update_where p f done [] = refl
  any-update_where p f done (x ∷ xs) = ground (arith, done x, any-update_where p f done xs)

  -- Where no row passes the test the update changes nothing.
  pub update_where_none :
      (p : A → Bool) (f : A → A) (xs : List A) → any p xs ≡ false → update_where p f xs ≡ xs
  unfolding any update_where
  update_where_none p f [] h = refl
  update_where_none p f (x ∷ xs) h = ground (arith, update_where_none p f xs)

  pub update_where-append :
      (p : A → Bool) (f : A → A) (xs ys : List A)
      → update_where p f (xs ++ ys) ≡ update_where p f xs ++ update_where p f ys
  unfolding update_where
  update_where-append p f [] ys = refl
  update_where-append p f (x ∷ xs) ys =
      ap (λ l. (if p x then f x else x) ∷ l) (update_where-append p f xs ys)

  -- An update of the row that was inserted last.
  pub update_where_last :
      (p : A → Bool) (f : A → A) (xs : List A) (x : A)
      → any p xs ≡ false
      → p x ≡ true
      → update_where p f (xs ++ x ∷ []) ≡ xs ++ f x ∷ []
  unfolding update_where
  update_where_last p f xs x none_passes passes =
      rw (update_where-append, update_where_none p f xs none_passes, passes)

  pub update_where-eq-map :
      (p : A → Bool) (f : A → A) (xs : List A)
      → update_where p f xs ≡ map (λ x. if p x then f x else x) xs
  unfolding update_where
  update_where-eq-map p f [] = refl
  update_where-eq-map p f (x ∷ xs) =
      ap (λ l. (if p x then f x else x) ∷ l) (update_where-eq-map p f xs)
