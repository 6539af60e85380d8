-- ===== src/Triggers/Hmac.antt =====
-- src/triggers/hmac.py. Bytes are numbers below 256; the digest is the world's.
pub mod Signatures
use the_brain.Prelude.{
  nat_eq, refl, ℕ, ◌+◌, ◌-◌, ◌*◌, ◌<◌, ◌≡◌, ◌↔◌, Bool, true, false, ◌&&◌, ◌||◌, Option, none, some,
  List, [], ◌∷◌, ◌++◌, map, leb, ◌==◌, arith, eq_iff, if◌then◌else◌,
}
use the_brain.Text.{Text, text_beq, text_eq, codes, strip_prefix}
use the_brain.System.{World}

-- `_SIGNATURE_PREFIX`
abbrev signature_prefix : Text
signature_prefix = codes "sha256="

-- `_compute_digest`
unfoldable pub compute_digest : World → Text → List ℕ → List ℕ
compute_digest w secret body = w.hmac_sha256 secret body

unfoldable pub hex_digit : ℕ → Option ℕ
hex_digit c =
    if leb b'0' c && leb c b'9'
    then some (c - b'0')
    else if leb b'a' c && leb c b'f'
    then some (c - 87)
    else if leb b'A' c && leb c b'F'
    then some (c - 55)
    else none

-- The white space that `bytes.fromhex` skips between bytes.
unfoldable pub is_ascii_space : ℕ → Bool
is_ascii_space c = (leb 9 c && leb c 13) || c == 32

abbrev open_byte : Option ℕ → (ℕ → Option (List ℕ)) → Option (List ℕ)
open_byte none k = none
open_byte (some h) k = k h

abbrev close_byte : ℕ → Option ℕ → Option (List ℕ) → Option (List ℕ)
close_byte h none rest = none
close_byte h (some l) none = none
close_byte h (some l) (some bytes) = some ((16 * h + l) ∷ bytes)

-- `some h` is a byte whose first digit is read.
fromhex_from : Option ℕ → Text → Option (List ℕ)
unfolding hex_digit is_ascii_space
fromhex_from none [] = some []
fromhex_from (some h) [] = none
fromhex_from none (c ∷ s) =
    let skipped = fromhex_from none s in
    let opened = open_byte (hex_digit c) (λ h. fromhex_from (some h) s) in
    if is_ascii_space c then skipped else opened
fromhex_from (some h) (c ∷ s) = close_byte h (hex_digit c) (fromhex_from none s)

-- `bytes.fromhex`: `none` where that raises `ValueError`.
unfoldable pub fromhex : Text → Option (List ℕ)
unfolding fromhex_from
fromhex s = fromhex_from none s

-- What `verify_signature` compares the digest with, behind the prefix.
compared : Option Text → List ℕ
unfolding fromhex
compared none = []
compared (some hex) = elim (fromhex hex) [ none ↦ [] | some bytes ↦ bytes ]

-- `verify_signature`: a signature that is no `str` is `none`.
unfoldable pub verify_signature : World → Text → List ℕ → Option Text → Bool
unfolding compute_digest compared
verify_signature w secret body none = compute_digest w secret body == []
verify_signature w secret body (some provided) =
    compute_digest w secret body == compared (strip_prefix signature_prefix provided)
