-- ===== src/Runner/Resolve/Same.antt =====
-- What `_resolve_step` of src/runner/runner.py leaves as it is.
use the_brain.Prelude.{[], ◌∷◌, subst, Bool, true, false, if◌then◌else◌, subst, refl, ◌≡◌, Option}
use the_brain.Text.{Text}
use the_brain.Json.{Json, null, str, int, arr, obj}
use the_brain.Dict.{Dict}
use the_brain.System.{World}
use the_brain.Workflow.Models.{Step, memory_vault, llm, shell, mcp_tool}
use the_brain.Runner.Models.{StepResult, TriggerContext}
use the_brain.Runner.Placeholder.{substitute, Attempt, value, error, ◌>>=◌}
use the_brain.Runner.Resolve.{resolve_step, resolve_optional, resolve_arg, resolve_args}
use the_brain.Runner.Placeholder.{substitute}

-- Two argument values that are both texts, or are equal.
abbrev pub SameArg : Json → Json → Type 0
SameArg (str s) (str t) = Unit
SameArg a b = a ≡ b

-- Two lists of arguments with the same keys in the same order, whose values are texts or equal.
abbrev pub SameArgs : Dict Text Json → Dict Text Json → Type 0
SameArgs [] [] = Unit
SameArgs ((k, a) ∷ args) ((l, b) ∷ rest) = (k ≡ l) × SameArg a b × SameArgs args rest
SameArgs [] (b ∷ rest) = ⊥
SameArgs (a ∷ args) [] = ⊥

-- Two steps of one type that differ at most in the texts that are resolved.
abbrev pub SameStep : Step → Step → Type 0
SameStep (memory_vault a) (memory_vault b) = record a { query = b.query } ≡ b
SameStep (llm a) (llm b) = record a { prompt = b.prompt; system = b.system } ≡ b
SameStep (shell a) (shell b) = record a { command = b.command } ≡ b
SameStep (mcp_tool a) (mcp_tool b) =
    (record a { server_command = b.server_command; args = b.args } ≡ b) × SameArgs a.args b.args
SameStep a b = ⊥

value-injective {ℓ} : {A : Type ℓ} {a b : A} → value a ≡ value b → a ≡ b
value-injective h = cc

bind-eq-value {ℓ κ} :
    {A : Type ℓ} {B : Type κ} (m : Attempt A) (f : A → Attempt B) {b : B}
    → (m >>= f) ≡ value b
    → (a : A) × (m ≡ value a) × (f a ≡ value b)
bind-eq-value (value a) f h = (a, refl, h)
bind-eq-value (error e) f h = cc

SameArg-refl : (a : Json) → SameArg a a
SameArg-refl (str text) = tt
SameArg-refl null = refl
SameArg-refl (Json.bool x) = refl
SameArg-refl (int n) = refl
SameArg-refl (Json.real x) = refl
SameArg-refl (arr xs) = refl
SameArg-refl (obj fs) = refl

SameArgs-refl : (args : Dict Text Json) → SameArgs args args
SameArgs-refl [] = tt
SameArgs-refl ((k, a) ∷ args) = (refl, SameArg-refl a, SameArgs-refl args)

SameArgs-if :
    (changed : Bool) (args new : Dict Text Json)
    → SameArgs args new
    → SameArgs args (if changed then new else args)
SameArgs-if true args new h = h
SameArgs-if false args new h = SameArgs-refl args

module _ (w : World) (results : Dict Text StepResult) (previous : Option (Dict Text Text))
    (trigger : Option TriggerContext) where
  resolve_arg-SameArg :
      (a : Json) (b : Json × Bool)
      → resolve_arg w results previous trigger a ≡ value b
      → SameArg a b.0
  unfolding resolve_arg
  resolve_arg-SameArg (str text) b h =
      let (t, _, e) = bind-eq-value (substitute w results previous trigger text) _ h in
      subst (λ (c : Json × Bool). SameArg (str text) c.0) (value-injective e) tt
  resolve_arg-SameArg null b h =
      subst (λ (c : Json × Bool). SameArg null c.0) (value-injective h) refl
  resolve_arg-SameArg (Json.bool x) b h =
      subst (λ (c : Json × Bool). SameArg (Json.bool x) c.0) (value-injective h) refl
  resolve_arg-SameArg (int n) b h =
      subst (λ (c : Json × Bool). SameArg (int n) c.0) (value-injective h) refl
  resolve_arg-SameArg (Json.real x) b h =
      subst (λ (c : Json × Bool). SameArg (Json.real x) c.0) (value-injective h) refl
  resolve_arg-SameArg (arr xs) b h =
      subst (λ (c : Json × Bool). SameArg (arr xs) c.0) (value-injective h) refl
  resolve_arg-SameArg (obj fs) b h =
      subst (λ (c : Json × Bool). SameArg (obj fs) c.0) (value-injective h) refl

  resolve_args-SameArgs :
      (args : Dict Text Json) (rest : Dict Text Json × Bool)
      → resolve_args w results previous trigger args ≡ value rest
      → SameArgs args rest.0
  unfolding resolve_args
  resolve_args-SameArgs [] rest h =
      subst (λ (r : Dict Text Json × Bool). SameArgs [] r.0) (value-injective h) tt
  resolve_args-SameArgs ((k, a) ∷ args) rest h =
      let (b, first, e) = bind-eq-value (resolve_arg w results previous trigger a) _ h in
      let (bs, others, e') = bind-eq-value (resolve_args w results previous trigger args) _ e in
      subst (λ (r : Dict Text Json × Bool). SameArgs ((k, a) ∷ args) r.0) (value-injective e')
        (refl, resolve_arg-SameArg a b first, resolve_args-SameArgs args bs others)

  -- A step that is resolved has the type of the step and differs from it only in its query, in its prompt
  -- and system text, in its command, or in its server command and those of its arguments that are texts;
  -- the keys of the arguments, their order and the other arguments stay.
  pub resolve_step-SameStep :
      (step resolved : Step)
      → resolve_step w results previous trigger step ≡ value resolved
      → SameStep step resolved
  unfolding resolve_step
  resolve_step-SameStep (memory_vault s) resolved h =
      let (query, _, e) = bind-eq-value (substitute w results previous trigger s.query) _ h in
      subst (SameStep (memory_vault s)) (value-injective e) refl
  resolve_step-SameStep (llm s) resolved h =
      let (prompt, _, e) = bind-eq-value (substitute w results previous trigger s.prompt) _ h in
      let (system, _, e) =
        bind-eq-value (resolve_optional w results previous trigger s.system) _ e in
      subst (SameStep (llm s)) (value-injective e) refl
  resolve_step-SameStep (shell s) resolved h =
      let (command, _, e) = bind-eq-value (substitute w results previous trigger s.command) _ h in
      subst (SameStep (shell s)) (value-injective e) refl
  resolve_step-SameStep (mcp_tool s) resolved h =
      let (command, _, e) =
        bind-eq-value (substitute w results previous trigger s.server_command) _ h in
      let (args, resolved_args, e) =
        bind-eq-value (resolve_args w results previous trigger s.args) _ e in
      subst (SameStep (mcp_tool s)) (value-injective e)
        (refl, SameArgs-if args.1 s.args args.0 (resolve_args-SameArgs s.args args resolved_args))
