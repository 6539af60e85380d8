-- ===== src/Cli/Show/Prefix.antt =====
-- The run ids of src/cli.py as prefixes.
use mathlib.Core.List.{Perm}
use the_brain.Cli.Ordered.{order_by-IsOrdered, IsOrdered, order_by-Perm, length-order_by}
use the_brain.System.{ok-injective, ok, System, World, fetch}
use the_brain.Cli.Reports.{order_by, insert_row}
use the_brain.Runner.Models.{WorkflowRun}
use the_brain.Cli.Show.{
  Shown, invalid_run_id, no_run, one_run, ambiguous, invalid_run_id, ambiguous, one_run, Shown,
  matching, chosen, show, valid_run_id, not_earlier,
}
use the_brain.Cli.Show.{
  Shown, invalid_run_id, no_run, one_run, ambiguous, is_nil, valid_rest, like, literal, some_end,
  is_id_char,
}
use the_brain.Prelude.{
  refl, ◌≡◌, ◌∙◌, sym, ap, subst, ℕ, ◌≤◌, Bool, true, false, ◌&&◌, ◌||◌, Bool-cases, Option, none,
  some, List, [], ◌∷◌, ◌++◌, keep, length, inl, inr, ◌⊎◌, arith, ◌==◌, nat_eq,
}
use the_brain.Text.{Text, strip_prefix}

-- `text.startswith(prefix)`
abbrev pub is_some {ℓ} : {A : Type ℓ} → Option A → Bool
is_some none = false
is_some (some a) = true

unfoldable pub starts_with : Text → Text → Bool
unfolding strip_prefix
starts_with prefix text = is_some (strip_prefix prefix text)

every_end : (s : Text) → some_end is_nil s ≡ true
unfolding some_end
every_end [] = refl
every_end (c ∷ s) = every_end s

-- The characters that are no wildcard and no escape.
abbrev IsPlain : ℕ → Type 0
IsPlain c = (c == 37 ≡ false) × (c == 95 ≡ false) × (c == 92 ≡ false)

id_char-IsPlain : (c : ℕ) → is_id_char c ≡ true → IsPlain c
unfolding is_id_char
id_char-IsPlain c h = (ground arith, ground arith, ground arith)

line_feed-IsPlain : (c : ℕ) → is_id_char c || c == 10 ≡ true → IsPlain c
unfolding is_id_char
line_feed-IsPlain c h = (ground arith, ground arith, ground arith)

like-plain :
    (c : ℕ) (rest : Text) (text : Text)
    → IsPlain c
    → like (c ∷ rest ++ 37 ∷ []) text ≡ literal c (like (rest ++ 37 ∷ [])) text
unfolding like
like-plain c [] text (a, b, d) = rw (a, b, d)
like-plain c (q ∷ rest) text (a, b, d) = rw (a, b, d)

starts-literal :
    (c : ℕ) (rest : Text) (f : Text → Bool)
    → ((text : Text) → f text ≡ starts_with rest text)
    → (text : Text) → literal c f text ≡ starts_with (c ∷ rest) text
unfolding starts_with strip_prefix
starts-literal c rest f h [] = refl
starts-literal c rest f h (d ∷ text) = elim (Bool-cases (c == d)) [
  | inl same ↦ rw (same, h text)
  | inr other ↦ rw other
]

like-percent : (text : Text) → like (37 ∷ []) text ≡ starts_with [] text
unfolding like starts_with strip_prefix
like-percent text = every_end text

and_true : (a b : Bool) → a && b ≡ true → (a ≡ true) × (b ≡ true)
and_true true b h = (refl, h)
and_true false b h = cc

like-rest :
    (rest : Text)
    → valid_rest rest ≡ true
    → (text : Text) → like (rest ++ 37 ∷ []) text ≡ starts_with rest text
unfolding valid_rest
like-rest [] h text = like-percent text
like-rest (c ∷ []) h text =
    like-plain c [] text (line_feed-IsPlain c h) ∙ starts-literal c [] _ like-percent text
like-rest (c ∷ d ∷ rest) h text =
    let (first, others) = and_true (is_id_char c) (valid_rest (d ∷ rest)) h in
    like-plain c (d ∷ rest) text (id_char-IsPlain c first)
    ∙ starts-literal c (d ∷ rest) _ (like-rest (d ∷ rest) others) text

like-prefix :
    (run_id text : Text)
    → valid_run_id run_id ≡ true
    → like (run_id ++ 37 ∷ []) text ≡ starts_with run_id text
unfolding valid_run_id
like-prefix [] text h = cc
like-prefix (c ∷ rest) text h =
    let (first, others) = and_true (is_id_char c) (valid_rest rest) h in
    like-plain c rest text (id_char-IsPlain c first)
    ∙ starts-literal c rest _ (like-rest rest others) text

keep_agree {ℓ} :
    {A : Type ℓ} (p q : A → Bool) (xs : List A) → ((x : A) → p x ≡ q x) → keep p xs ≡ keep q xs
unfolding keep
keep_agree p q [] h = refl
keep_agree p q (x ∷ xs) h = rw (h x, keep_agree p q xs h)

module _ {ℓ} {A : Type ℓ} (after : A → A → Bool) where
  -- Rows that are one row in order are one row.
  order_by-one : (xs : List A) (x : A) → order_by after xs ≡ x ∷ [] → xs ≡ x ∷ []
  unfolding order_by insert_row
  order_by-one [] x h = cc
  order_by-one (y ∷ []) x h = h
  order_by-one (y ∷ z ∷ ys) x h =
      absurd (let long = length-order_by after (y ∷ z ∷ ys) in omega (arith, ap length h, long))

  order_by-none : (xs : List A) → order_by after xs ≡ [] → xs ≡ []
  order_by-none [] h = refl
  order_by-none (y ∷ ys) h = absurd (omega (arith, ap length h, length-order_by after (y ∷ ys)))

-- The first run started no later than the second.
abbrev pub NotAfter : WorkflowRun → WorkflowRun → Type 0
NotAfter a b = a.started_at ≤ b.started_at

-- What the command shows of the runs `found`, whose ids start with the given one.
abbrev pub IsShown : List WorkflowRun → Shown → Type 0
IsShown found invalid_run_id = ⊥
IsShown found no_run = found ≡ []
IsShown found (one_run r) = found ≡ r ∷ []
IsShown found (ambiguous rows) = Perm rows found × IsOrdered NotAfter rows × (2 ≤ length found)

chosen-IsShown :
    (found rows : List WorkflowRun)
    → rows ≡ order_by not_earlier found
    → IsShown found (chosen rows)
unfolding chosen
chosen-IsShown found [] h = order_by-none not_earlier found (sym h)
chosen-IsShown found (r ∷ []) h = order_by-one not_earlier found r (sym h)
chosen-IsShown found (r ∷ q ∷ rows) h =
    let same = ap length h ∙ length-order_by not_earlier found in
    (
      subst (λ l. Perm l found) (sym h) (order_by-Perm not_earlier found),
      subst (IsOrdered NotAfter) (sym h) (
          order_by-IsOrdered not_earlier NotAfter (λ a b h. ground arith) (λ a b h. ground arith)
            (λ a b c h k. omega (arith, h, k)) found),
      omega (arith, same),
    )

-- Of a run id that is accepted the command shows the one run whose id starts with it; that there is no
-- run exactly where no id does; and that the id is ambiguous, with each of them once, in the order of
-- their starts, where two or more do. An id that is not accepted it never looks up.
pub show-IsShown :
    (id_text : ℕ → Text) (run_id : Text) (w : World) (s : System) (out : Shown)
    → (show id_text run_id w s).0 ≡ ok out
    → let found = keep (λ r. starts_with run_id (id_text r.id)) s.db.runs in
      ((valid_run_id run_id ≡ true) × IsShown found out)
      ⊎ ((valid_run_id run_id ≡ false) × (out ≡ invalid_run_id) × ((show id_text run_id w s).1 ≡ s))
unfolding show matching fetch
show-IsShown id_text run_id w s out h = elim (Bool-cases (valid_run_id run_id)) [
  | inl valid ↦ elim (Bool-cases (w.db_raises s.calls)) [
    | inl raises ↦ absurd (let h' = rw (valid, raises) at h in cc)
    | inr fetched ↦
        let found = keep (λ r. starts_with run_id (id_text r.id)) s.db.runs in
        let rows = matching id_text run_id s.db in
        let same = ap (order_by not_earlier) (
          keep_agree (λ r. like (run_id ++ 37 ∷ []) (id_text r.id))
            (λ r. starts_with run_id (id_text r.id)) s.db.runs
            λ r. like-prefix run_id (id_text r.id) valid) in
        let shown = rw (valid, fetched) at h in
        inl (valid, subst (IsShown found) (ok-injective shown) (chosen-IsShown found rows same))
  ]
  | inr other ↦ inr (other, (let h' = rw other at h in sym (ok-injective h')), rw other)
]
