-- ===== src/Cli/Ordered.antt =====
-- `ORDER BY` in the queries of src/cli.py.
use mathlib.Core.List.{Perm}
use mathlib.Core.List.Perm
use the_brain.Prelude.{
  refl, ◌≡◌, ◌∙◌, ap, suc, ◌≤◌, Bool, true, false, Bool-cases, inl, inr, List, [], ◌∷◌, ◌++◌, take,
  drop, length, All, All-map, ℕ, zero, arith, ◌≢◌,
}
use the_brain.Cli.Reports.{insert_row, order_by}

module _ {ℓ} {A : Type ℓ} (after : A → A → Bool) where
  length-insert_row : (x : A) (xs : List A) → length (insert_row after x xs) ≡ suc (length xs)
  unfolding insert_row
  length-insert_row x [] = refl
  length-insert_row x (y ∷ ys) = ground (arith, length-insert_row x ys)

  pub length-order_by : (xs : List A) → length (order_by after xs) ≡ length xs
  unfolding order_by
  length-order_by [] = refl
  length-order_by (x ∷ xs) = length-insert_row x (order_by after xs) ∙ ap suc (length-order_by xs)

  insert_row-Perm : (x : A) (xs : List A) → Perm (insert_row after x xs) (x ∷ xs)
  unfolding insert_row
  insert_row-Perm x [] = Perm.rfl
  insert_row-Perm x (y ∷ ys) = elim (Bool-cases (after y x)) [
    | inl here ↦ rw here Perm.rfl
    | inr later ↦ rw later (Perm.trans (Perm.cons y (insert_row-Perm x ys)) (Perm.swap x y ys))
  ]

  -- Ordering loses no row and adds none.
  pub order_by-Perm : (xs : List A) → Perm (order_by after xs) xs
  unfolding order_by
  order_by-Perm [] = Perm.rfl
  order_by-Perm (x ∷ xs) =
      Perm.trans (insert_row-Perm x (order_by after xs)) (Perm.cons x (order_by-Perm xs))

  All-insert_row :
      (P : A → Type 0) (x : A) (xs : List A) → P x → All P xs → All P (insert_row after x xs)
  unfolding insert_row
  All-insert_row P x [] p h = (p, tt)
  All-insert_row P x (y ∷ ys) p (q, h) = elim (Bool-cases (after y x)) [
    | inl here ↦ rw here (p, (q, h))
    | inr later ↦ rw later (q, All-insert_row P x ys p h)
  ]

-- Each row stands in the relation `R` to every row behind it.
module _ {ℓ} {A : Type ℓ} (R : A → A → Type 0) where
  abbrev pub IsOrdered : List A → Type 0
  IsOrdered [] = Unit
  IsOrdered (x ∷ xs) = All (R x) xs × IsOrdered xs

module _ {ℓ} {A : Type ℓ} (after : A → A → Bool) (R : A → A → Type 0)
    (first : (a b : A) → after a b ≡ true → R b a) (second : (a b : A) → after a b ≡ false → R a b)
    (step : (a b c : A) → R a b → R b c → R a c) where
  insert_row-IsOrdered :
      (x : A) (xs : List A) → IsOrdered R xs → IsOrdered R (insert_row after x xs)
  unfolding insert_row
  insert_row-IsOrdered x [] h = (tt, tt)
  insert_row-IsOrdered x (y ∷ ys) (below, h) = elim (Bool-cases (after y x)) [
    | inl here ↦
        let le = first y x here in
        rw here ((le, All-map (R y) (R x) (λ z. step x y z le) ys below), (below, h))
    | inr later ↦
        let ge = second y x later in
        rw later (All-insert_row after (R y) x ys ge below, insert_row-IsOrdered x ys h)
  ]

  pub order_by-IsOrdered : (xs : List A) → IsOrdered R (order_by after xs)
  unfolding order_by
  order_by-IsOrdered [] = tt
  order_by-IsOrdered (x ∷ xs) = insert_row-IsOrdered x (order_by after xs) (order_by-IsOrdered xs)

module _ {ℓ} {A : Type ℓ} where
  pub take-append-drop : (n : ℕ) (xs : List A) → take n xs ++ drop n xs ≡ xs
  take-append-drop zero xs = refl
  take-append-drop (suc n) [] = refl
  take-append-drop (suc n) (x ∷ xs) = ap (λ l. x ∷ l) (take-append-drop n xs)

  pub length-take : (n : ℕ) (xs : List A) → length (take n xs) ≤ n
  length-take zero xs = omega arith
  length-take (suc n) [] = omega arith
  length-take (suc n) (x ∷ xs) = omega (arith, length-take n xs)

  pub take-full : (n : ℕ) (xs : List A) → drop n xs ≢ [] → length (take n xs) ≡ n
  take-full zero xs h = refl
  take-full (suc n) [] h = absurd (h refl)
  take-full (suc n) (x ∷ xs) h = ap suc (take-full n xs h)
