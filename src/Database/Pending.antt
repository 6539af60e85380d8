-- ===== src/Database/Pending.antt =====
-- The migrations of src/db.py that are recorded and those that are pending.
use the_brain.Prelude.{
  ◌⊎◌, refl, ◌≡◌, Bool, true, not, List, [], ◌∷◌, ◌++◌, ◌==◌, keep, any, All, All-map, Bool-cases,
  inl, inr, arith, eq_refl, eq_iff,
}
use the_brain.Text.{Text, text_eq}
use the_brain.Database.Migrate.{pending}

-- A file is recorded in a list of names.
abbrev pub In : List Text → Text → Type 0
In names f = any (λ a. a == f) names ≡ true

In-append : (xs ys : List Text) (f : Text) → (In xs f ⊎ In ys f) → In (xs ++ ys) f
unfolding any
In-append [] ys f (inl h) = cc
In-append [] ys f (inr h) = h
In-append (x ∷ xs) ys f h = elim (Bool-cases (x == f)) [
  | inl here ↦ rw here
  | inr there ↦
      rw there (In-append xs ys f (elim h [ inl k ↦ inl (rw there at k) | inr k ↦ inr k ]))
]

In-keep : (p : Text → Bool) (xs : List Text) (f : Text) → In xs f → p f ≡ true → In (keep p xs) f
unfolding any keep
In-keep p [] f h q = h
In-keep p (x ∷ xs) f h q = let ih = In-keep p xs f in ground (arith, eq_iff x f, ih, q)

In-self : (xs : List Text) → All (In xs) xs
unfolding any
In-self [] = tt
In-self (x ∷ xs) =
    (rw (eq_refl x), All-map (In xs) (In (x ∷ xs)) (λ f h. ground (arith, h)) xs (In-self xs))

pub none_pending : (done files : List Text) → All (In done) files → pending done files ≡ []
unfolding pending keep
none_pending done [] h = refl
none_pending done (f ∷ files) (h, hs) = rw h (none_pending done files hs)

pub every_recorded : (done files : List Text) → All (In (done ++ pending done files)) files
unfolding pending
every_recorded done files =
    All-map (In files) (In (done ++ pending done files))
      (λ f h. elim (Bool-cases (any (λ a. a == f) done)) [
        | inl before ↦ In-append done (pending done files) f (inl before)
        | inr new ↦
            In-append done (pending done files) f
              (inr (In-keep (λ g. not (any (λ a. a == g) done)) files f h (rw new)))
      ])
      files (In-self files)
