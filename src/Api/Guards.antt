-- ===== src/Api/Guards.antt =====
-- What the guards of src/api/app.py let through.
use the_brain.Messages.{other_exception}
use the_brain.Runner.Models.{TriggerContext}
use the_brain.Prelude.{
  sym, ◌∙◌, ap, ◌&&◌, ◌||◌, ◌&&◌, ◌∙◌, refl, ℕ, ◌≡◌, ◌≢◌, Bool, true, false, Option, none, some,
  List, [], ◌∷◌, ◌==◌, any, arith, suc, if◌then◌else◌, inl, inr, Bool-cases, Option-cases, eq_iff,
}
use the_brain.Text.{Text, text_eq, codes, lower}
use the_brain.Dict.{has, Dict, lookup}
use the_brain.Database.{Webhook}
use the_brain.System.{ok-injective, or_raise, >>=-eq-ok, ok, World, System, fetch}
use the_brain.Triggers.Hmac.{verify_signature}
use the_brain.Runner.Run.{Executor}
use the_brain.Api.{
  allowlist, context_body, build_webhook_trigger_context, webhook_endpoint, webhook_of,
  check_signature, safe_headers, decoded_or_empty, run_endpoint, run_authorized, with_header,
  require_token, Auth, accepted, Credentials, compare_tokens,
}

-- The webhook may run: it is enabled and the request is signed with its secret.
abbrev pub MayRun : World → List ℕ → Dict Text Text → Webhook → Type 0
MayRun w raw_body headers row =
    (row.enabled ≡ true)
    × (verify_signature w row.hmac_secret raw_body
          (some (decoded_or_empty (lookup (codes "x-brain-signature") headers)))
        ≡ true)

module _ (x : Executor) (w : World) (raw_body : List ℕ) (headers : Dict Text Text) where
  check_signature-MayRun :
      (row : Webhook) (s : System)
      → row.enabled ≡ true
      → (check_signature x row raw_body headers w s).1 ≢ s
      → MayRun w raw_body headers row
  unfolding check_signature
  check_signature-MayRun row s on moved =
      elim (Bool-cases (
        verify_signature w row.hmac_secret raw_body
          (some (decoded_or_empty (lookup (codes "x-brain-signature") headers))))) [
            | inl signed ↦ (on, signed)
            | inr forged ↦ absurd (moved (rw forged))
          ]

  -- A request to a webhook that does anything beyond looking the name up, such as reading a file,
  -- starting a run or changing a table, belongs to a registered and enabled webhook, and its body is
  -- signed with the secret of that webhook.
  pub webhook_endpoint-MayRun :
      (name : Text) (s : System)
      → (webhook_endpoint x name raw_body headers w s).1 ≢ record s { calls = suc s.calls }
      → (row : Webhook) × (webhook_of name s.db ≡ some row) × MayRun w raw_body headers row
  unfolding webhook_endpoint fetch
  webhook_endpoint-MayRun name s moved = elim (Bool-cases (w.db_raises s.calls)) [
    | inl down ↦ absurd (moved (rw down))
    | inr up ↦ elim (Option-cases (webhook_of name s.db)) [
      | inl missing ↦ absurd (moved (rw (up, missing)))
      | inr (row, found) ↦ elim (Bool-cases row.enabled) [
        | inr off ↦ absurd (moved (rw (up, found, off)))
        | inl on ↦ (
          row,
          found,
          check_signature-MayRun row (record s { calls = suc s.calls }) on
              λ same. moved (rw (up, found, on) same),
        )
      ]
    ]
  ]

-- The request carries the expected token.
abbrev pub Authorized : Text → Option Credentials → Type 0
Authorized expected credentials =
    (c : Credentials) × (credentials ≡ some c)
    × (lower c.scheme ≡ codes "bearer")
    × (c.credentials ≡ expected)

compare_tokens-accepted :
    (given expected : Text) → compare_tokens given expected ≡ accepted → given ≡ expected
unfolding compare_tokens
compare_tokens-accepted given expected h = ground (arith, eq_iff given expected)

require_token-accepted :
    (expected : Text) (credentials : Option Credentials)
    → require_token expected credentials ≡ accepted
    → Authorized expected credentials
unfolding require_token
require_token-accepted expected none h = cc
require_token-accepted expected (some c) h = elim (Bool-cases (lower c.scheme == codes "bearer")) [
  | inr other ↦ absurd (ground (arith, rw other at h))
  | inl bearer ↦ (
    c,
    refl,
    (eq_iff (lower c.scheme) (codes "bearer")).0 bearer,
    compare_tokens-accepted c.credentials expected (rw bearer at h),
  )
]

moved-accepted :
    (x : Executor) (w : World) (path : Text) (s : System) (a : Auth)
    → (run_authorized x a path w s).1 ≢ s
    → a ≡ accepted
unfolding run_authorized
moved-accepted x w path s Auth.accepted moved = refl
moved-accepted x w path s (Auth.unauthorized detail) moved = absurd (moved refl)
moved-accepted x w path s Auth.type_error moved = absurd (moved refl)

-- A request to `/run` that changes anything, or makes any call of the outside, carries the token.
pub run_endpoint-Authorized :
    (x : Executor) (w : World) (expected : Text) (credentials : Option Credentials) (path : Text)
    (s : System)
    → (run_endpoint x expected credentials path w s).1 ≢ s
    → Authorized expected credentials
unfolding run_endpoint
run_endpoint-Authorized x w expected credentials path s moved =
    require_token-accepted expected credentials
      (moved-accepted x w path s (require_token expected credentials) moved)

lookup-with_header :
    (n name : Text) (o : Option Text) (d : Dict Text Text)
    → lookup name (with_header n o d) ≡ (if n == name && has o then o else lookup name d)
unfolding lookup
lookup-with_header n name none d = ground arith
lookup-with_header n name (some v) d = ground arith

header_step :
    (b m : Bool) (o p rest : Option Text)
    → (b ≡ true → o ≡ p)
    → rest ≡ (if m then p else none)
    → (if b && has o then o else rest) ≡ (if b || m then p else none)
header_step false m o p rest same h = h
header_step true m (some v) p rest same h = same refl
header_step true true none p rest same h = h
header_step true false none p rest same h = h ∙ same refl

safe_headers-lookup :
    (names : List Text) (headers : Dict Text Text) (name : Text)
    → lookup name (safe_headers names headers)
      ≡ (if any (λ n. n == name) names then lookup name headers else none)
unfolding safe_headers any lookup
safe_headers-lookup [] headers name = refl
safe_headers-lookup (n ∷ names) headers name =
    lookup-with_header n name (lookup n headers) (safe_headers names headers)
    ∙ header_step (n == name) (any (λ n. n == name) names) (lookup n headers) (lookup name headers)
        (lookup name (safe_headers names headers))
        (λ e. ap (λ t. lookup t headers) ((eq_iff n name).0 e))
        (safe_headers-lookup names headers name)

-- The headers of a request that a workflow may see.
abbrev pub visible_headers : List Text
visible_headers =
    codes "content-type"
    ∷ codes "user-agent"
    ∷ codes "x-github-event"
    ∷ codes "x-github-delivery"
    ∷ codes "x-stripe-event"
    ∷ codes "x-event-key"
    ∷ []

-- The trigger context of a webhook is an event "webhook" without a path, and shows of the request's
-- headers the content type, the user agent, the event and the delivery of GitHub, the event of Stripe
-- and the event key, each with its value, and no other, such as the authorization or a cookie, whatever
-- name a workflow asks for.
pub lookup-build_webhook_trigger_context :
    (raw_body : List ℕ) (headers : Dict Text Text) (w : World) (s : System) (c : TriggerContext)
    → (build_webhook_trigger_context raw_body headers w s).0 ≡ ok c
    → (c.event ≡ some (codes "webhook"))
      × (c.path ≡ none)
      × ((shown : Dict Text Text) × (c.headers ≡ some shown)
          × ((name : Text)
              → lookup name shown
                ≡ (if any (λ n. n == name) visible_headers then lookup name headers else none)))
unfolding build_webhook_trigger_context
lookup-build_webhook_trigger_context raw_body headers w s c h =
    let (body, _, ended, _) =
      >>=-eq-ok (or_raise (context_body w raw_body) other_exception) _ w s h in
    let same = ok-injective ended in
    (
      sym (ap (λ (d : TriggerContext). d.event) same),
      sym (ap (λ (d : TriggerContext). d.path) same),
      (
        safe_headers allowlist headers,
        sym (ap (λ (d : TriggerContext). d.headers) same),
        safe_headers-lookup allowlist headers,
      ),
    )
