-- ===== src/Cli/Truncate.antt =====
-- `_truncate` of src/cli.py.
use the_brain.Prelude.{
  refl, ◌≡◌, ◌≤◌, ◌<◌, ◌∙◌, ap, ℕ, zero, suc, Bool-cases, inl, inr, ◌⊎◌, List, [], ◌∷◌, take,
  length, length-append, leb, arith,
}
use the_brain.Text.{Text}
use the_brain.Cli.Reports.{truncate}

length-take {ℓ} : {A : Type ℓ} (n : ℕ) (xs : List A) → n ≤ length xs → length (take n xs) ≡ n
length-take zero xs h = refl
length-take (suc n) [] h = omega (arith, h)
length-take (suc n) (x ∷ xs) h = ap suc (length-take n xs (omega (arith, h)))

-- A text is cut to a width of at least 1: it is left as it is where it fits, and otherwise fills the
-- width exactly.
pub truncate-Fits :
    (text : Text) (w : ℕ)
    → ((truncate text (suc w) ≡ text) × (length text ≤ suc w))
      ⊎ ((length (truncate text (suc w)) ≡ suc w) × (suc w < length text))
unfolding truncate
truncate-Fits text w = elim (Bool-cases (leb (length text) (suc w))) [
  | inl fits ↦ inl (rw fits, ground arith)
  | inr long ↦
      let more : suc w < length text = ground arith in
      inr (
        rw long (
            length-append (take w text) (8230 ∷ [])
            ∙ omega (arith, length-take w text (omega (arith, more)))),
        more,
      )
]
