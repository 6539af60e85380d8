-- ===== src/Diagnose/Texts.antt =====
-- The texts of `environment.txt` and `REDACTED_FIELDS.txt` in the bundle of src/diagnose.py.
use the_brain.Diagnose.{env_presence_only}
use the_brain.Text.{text_eq, join, text_leb, codes, Text}
use the_brain.Cli.Reports.{order_by}
use the_brain.Dict.{lookup, Dict}
use the_brain.Prelude.{map, ◌++◌, List, Option, [], ◌∷◌, none, some}

abbrev pub lines_of : List Text → Text
lines_of lines = join (codes "\n") lines ++ codes "\n"

-- `sorted`
abbrev pub sorted_names : List Text → List Text
unfolding order_by
sorted_names names = order_by (λ a b. text_leb b a) names

abbrev pub value_or_empty : Option Text → Text
value_or_empty none = []
value_or_empty (some v) = v

abbrev pub captured_line : Dict Text Text → Text → Text
captured_line captured name = name ++ codes "=" ++ value_or_empty (lookup name captured)

abbrev pub captured_lines : Dict Text Text → List Text
captured_lines [] = codes "(no allow-listed env vars present)" ∷ []
captured_lines (entry ∷ captured) =
    map (captured_line (entry ∷ captured)) (sorted_names (map (λ e. e.0) (entry ∷ captured)))

abbrev pub redacted_lines : List Text → List Text
redacted_lines [] = codes "(no secret env vars set)" ∷ []
redacted_lines (name ∷ names) =
    map (λ n. n ++ codes "=<redacted: set, value omitted>") (sorted_names (name ∷ names))

-- `_format_env_section`
unfoldable pub format_env_section : Dict Text Text → List Text → Text
format_env_section captured redacted = lines_of (
    (codes "# Brain environment (filtered, non-secret only)\n" ∷ captured_lines captured)
    ++ (codes ""
        ∷ codes "# Secrets PRESENT but REDACTED (value never written to bundle)"
        ∷ redacted_lines redacted))

-- `_format_redacted_fields_doc`
unfoldable pub format_redacted_fields_doc : Text
format_redacted_fields_doc =
    codes "# Redacted fields\n"
    ++ codes "\n"
    ++ codes "The following environment variables are NEVER written to a brain\n"
    ++ codes "diagnostic bundle, by design. If you see one of these listed in\n"
    ++ codes "`environment.txt` as `<redacted: set, value omitted>`, that means\n"
    ++ codes "the variable is configured on the machine but its value has been\n"
    ++ codes "filtered out.\n"
    ++ codes "\n"
    ++ join (codes "\n") (map (λ name. codes "- " ++ name) env_presence_only)
    ++ codes "\n"
    ++ codes "\n"
    ++ codes "If the variable is not in `environment.txt` at all, it is unset.\n"
    ++ codes "\n"
    ++ codes "Logs are included unfiltered. If you (or a workflow you ran) have\n"
    ++ codes "logged a secret value to stdout, that string will be in the bundle.\n"
    ++ codes "Review every file before posting the bundle to a public issue\n"
    ++ codes "tracker.\n"
