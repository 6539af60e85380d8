-- ===== src/Config.antt =====
-- `Settings` of src/config.py, less `load_dotenv` and the environment that its defaults read.
use the_brain.Prelude.{◌∷◌, [], ℕ}
use the_brain.Text.{codes, join, Text}

pub record Settings : Type 0 where
  pub db_host : Text
  pub db_port : ℕ
  pub db_name : Text
  pub db_user : Text
  pub db_password : Text
  pub memory_vault_url : Text
  pub memory_vault_token : Text
  pub llm_base_url : Text
  pub llm_api_key : Text
  pub llm_model : Text
  pub log_level : Text

-- `database_url`, with the port in decimal digits. The parts are put in as they are, without quoting.
unfoldable pub database_url : (ℕ → Text) → Settings → Text
database_url digits s = join [] (
    codes "postgresql://"
    ∷ s.db_user
    ∷ codes ":"
    ∷ s.db_password
    ∷ codes "@"
    ∷ s.db_host
    ∷ codes ":"
    ∷ digits s.db_port
    ∷ codes "/"
    ∷ s.db_name
    ∷ [])
