-- ===== src/Triggers/Hmac/Signatures.antt =====
-- Which signatures `verify_signature` of src/triggers/hmac.py accepts.
use the_brain.Prelude.{
  refl, ℕ, ◌+◌, ◌*◌, ◌<◌, ◌≡◌, ◌≢◌, ◌↔◌, true, false, Option, none, some, List, [], ◌∷◌, ◌++◌, map,
  ltb, nat_eq, arith, eq_iff, All, if◌then◌else◌, sym, ◌∙◌, ap,
}
use the_brain.Text.{Text, text_eq, strip_prefix}
use the_brain.System.{World}
use the_brain.Triggers.Hmac.{
  verify_signature, fromhex, fromhex_from, compared, compute_digest, hex_digit, is_ascii_space,
  signature_prefix,
}

strip_prefix-some : (p s r : Text) → strip_prefix p s ≡ some r → s ≡ p ++ r
unfolding strip_prefix
strip_prefix-some [] s r h = ground arith
strip_prefix-some (c ∷ p) [] r h = cc
strip_prefix-some (c ∷ p) (d ∷ s) r h = ground (arith, strip_prefix-some p s r, eq_iff c d)

strip_prefix-append : (p r : Text) → strip_prefix p (p ++ r) ≡ some r
unfolding strip_prefix
strip_prefix-append [] r = refl
strip_prefix-append (c ∷ p) r = ground (arith, strip_prefix-append p r)

-- A signature that is the prefix and digits of the digest.
abbrev pub Signs : List ℕ → Option Text → Type 0
Signs digest provided =
    (hex : Text) × (provided ≡ some (signature_prefix ++ hex)) × (fromhex hex ≡ some digest)

compared-digest :
    (digest : List ℕ) (rest : Option Text)
    → digest ≢ []
    → compared rest ≡ digest
    → (hex : Text) × (rest ≡ some hex) × (fromhex hex ≡ some digest)
unfolding compared
compared-digest digest none full h = absurd (full (sym h))
compared-digest digest (some hex) full h = (hex, refl, of_hex (fromhex hex) h)
  where
    of_hex :
        (o : Option (List ℕ))
        → (elim o [ none ↦ [] | some bytes ↦ bytes ]) ≡ digest
        → o ≡ some digest
    of_hex none e = absurd (full (sym e))
    of_hex (some bytes) e = ap (λ b. some b) e

some-injective : {a b : Text} → some a ≡ some b → a ≡ b
some-injective h = cc

compared-prefix :
    (text hex : Text) (digest : List ℕ)
    → text ≡ signature_prefix ++ hex
    → fromhex hex ≡ some digest
    → compared (strip_prefix signature_prefix text) ≡ digest
unfolding compared
compared-prefix text hex digest e h =
    ap (λ t. compared (strip_prefix signature_prefix t)) e
    ∙ ap (λ r. compared r) (strip_prefix-append signature_prefix hex)
    ∙ ap (λ (o : Option (List ℕ)). elim o [ none ↦ [] | some bytes ↦ bytes ]) h

module _ (w : World) (secret : Text) (body : List ℕ) where
  -- Where the digest is not empty, a signature is accepted exactly where it is a text that starts with
  -- the prefix and whose rest `bytes.fromhex` reads as the digest of this body under this secret.
  pub verify_signature_iff :
      (provided : Option Text)
      → compute_digest w secret body ≢ []
      → (verify_signature w secret body provided ≡ true)
        ↔ Signs (compute_digest w secret body) provided
  unfolding verify_signature
  verify_signature_iff none full =
      (λ h. absurd (full ((eq_iff (compute_digest w secret body) []).0 h)), λ (hex, e, _). cc)
  verify_signature_iff (some text) full =
      let digest = compute_digest w secret body in
      let given = strip_prefix signature_prefix text in
      (
        λ h.
            let (hex, e, digits) =
              compared-digest digest given full (sym ((eq_iff digest (compared given)).0 h)) in
            (hex, ap (λ t. some t) (strip_prefix-some signature_prefix text hex e), digits),
        λ (hex, e, digits).
            (eq_iff digest (compared given)).1
              (sym (compared-prefix text hex digest (some-injective e) digits)),
      )

-- The two digits that `hexdigest` writes for a byte.
unfoldable pub digit : ℕ → ℕ
digit d = if ltb d 10 then b'0' + d else 87 + d

unfoldable pub hexdigest : List (ℕ × ℕ) → Text
unfolding digit
hexdigest [] = []
hexdigest ((h, l) ∷ bytes) = digit h ∷ digit l ∷ hexdigest bytes

abbrev pub Nibbles : ℕ × ℕ → Type 0
Nibbles (h, l) = (h < 16) × (l < 16)

abbrev pub byte_of : ℕ × ℕ → ℕ
byte_of (h, l) = 16 * h + l

hex_digit-digit :
    (d : ℕ) → d < 16 → (hex_digit (digit d) ≡ some d) × (is_ascii_space (digit d) ≡ false)
unfolding hex_digit digit is_ascii_space
hex_digit-digit d h = ground arith

fromhex-hexdigest :
    (bytes : List (ℕ × ℕ))
    → All Nibbles bytes
    → fromhex (hexdigest bytes) ≡ some (map byte_of bytes)
unfolding fromhex fromhex_from hexdigest
fromhex-hexdigest [] h = refl
fromhex-hexdigest ((h, l) ∷ bytes) ((hh, hl), rest) = rw (
  (hex_digit-digit h hh).0,
  (hex_digit-digit h hh).1,
  (hex_digit-digit l hl).0,
  fromhex-hexdigest bytes rest,
)

-- A sender that writes the prefix and the digest's lower-case digits is accepted.
pub verify_signature-hexdigest :
    (w : World) (secret : Text) (body : List ℕ) (bytes : List (ℕ × ℕ))
    → All Nibbles bytes
    → compute_digest w secret body ≡ map byte_of bytes
    → verify_signature w secret body (some (signature_prefix ++ hexdigest bytes)) ≡ true
unfolding verify_signature
verify_signature-hexdigest w secret body bytes nibbles digest =
    let full =
      compared-prefix (signature_prefix ++ hexdigest bytes) (hexdigest bytes) (map byte_of bytes)
        refl (fromhex-hexdigest bytes nibbles) in
    (eq_iff (compute_digest w secret body)
        (compared (strip_prefix signature_prefix (signature_prefix ++ hexdigest bytes)))).1
      (digest ∙ sym full)
