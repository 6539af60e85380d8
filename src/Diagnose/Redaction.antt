-- ===== src/Diagnose/Redaction.antt =====
-- The secrets and the files of the bundle of src/diagnose.py that are made from the environment.
use the_brain.Prelude.{◌≡◌, refl, All, List, [], ◌∷◌, false, any, ◌==◌, nat_eq}
use the_brain.Text.{codes, Text, text_eq}
use the_brain.Dict.{lookup}
use the_brain.Diagnose.{
  Environ, Machine, env_allowlist, env_presence_only, is_truthy, captured_values, redacted_fields,
  env_snapshot, first_files,
}

captured_agree :
    (e f : Environ) (names : List Text)
    → All (λ n. lookup n e ≡ lookup n f) names
    → captured_values e names ≡ captured_values f names
unfolding captured_values
captured_agree e f [] h = refl
captured_agree e f (n ∷ names) (same, h) = rw (same, captured_agree e f names h)

redacted_agree :
    (e f : Environ) (names : List Text)
    → All (λ n. is_truthy (lookup n e) ≡ is_truthy (lookup n f)) names
    → redacted_fields e names ≡ redacted_fields f names
unfolding redacted_fields
redacted_agree e f [] h = refl
redacted_agree e f (n ∷ names) (same, h) = rw (same, redacted_agree e f names h)

-- The variables whose value may not be shown.
abbrev pub secrets : List Text
secrets =
    codes "DB_PASSWORD"
    ∷ codes "LLM_API_KEY"
    ∷ codes "MEMORY_VAULT_TOKEN"
    ∷ codes "THE_BRAIN_API_TOKEN"
    ∷ []

-- No variable that is shown is a secret.
allowed_agree :
    (e f : Environ)
    → ((name : Text) → any (λ t. t == name) secrets ≡ false → lookup name e ≡ lookup name f)
    → All (λ n. lookup n e ≡ lookup n f) env_allowlist
unfolding any the_brain.Text.text_beq
allowed_agree e f same = (
  same (codes "DB_HOST") refl,
  (
    same (codes "DB_PORT") refl,
    (
      same (codes "DB_USER") refl,
      (
        same (codes "DB_NAME") refl,
        (
          same (codes "LOG_LEVEL") refl,
          (
            same (codes "LOG_FORMAT") refl,
            (
              same (codes "LLM_BASE_URL") refl,
              (same (codes "LLM_MODEL") refl, (same (codes "MEMORY_VAULT_URL") refl, tt)),
            ),
          ),
        ),
      ),
    ),
  ),
)

-- Two environments that differ in the values of the database password, the LLM key, the Memory Vault token
-- and the API token alone, each of them set to a non-empty value in both or in neither, give the same
-- `MODE.txt`, `REDACTED_FIELDS.txt`, `environment.txt`, `os_info.txt` and `brain_version.txt`. The status of
-- the database and the outputs of docker are not spoken of.
pub first_files-Redacted :
    (m : Machine) (environ : Environ)
    → ((name : Text)
        → any (λ t. t == name) secrets ≡ false
        → lookup name m.environ ≡ lookup name environ)
    → All (λ n. is_truthy (lookup n m.environ) ≡ is_truthy (lookup n environ)) secrets
    → first_files m ≡ first_files (record m { environ = environ })
unfolding first_files env_snapshot
first_files-Redacted m environ same set =
    let allowed =
      captured_agree m.environ environ env_allowlist (allowed_agree m.environ environ same) in
    let redacted = redacted_agree m.environ environ env_presence_only set in rw (allowed, redacted)
