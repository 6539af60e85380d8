-- ===== src/Executors/Vault.antt =====
-- `MemoryVaultClient.search` of src/clients/memory_vault.py, and `MemoryVaultExecutor` of
-- src/executors/memory_vault.py.
use the_brain.Prelude.{Option, none, some, List, [], ◌∷◌, ◌++◌, take, if◌then◌else◌}
use the_brain.Prelude.Int.{ℤ, pos, leb_ℤ}
use the_brain.Text.{Text, codes, join}
use the_brain.Json.{Json, null, int, arr, Items, nil, cons, str, obj, end, field, get_field}
use the_brain.Messages.{
  Failure, vault_status, vault_unreachable, Exn, other_exception, base_exception,
}
use the_brain.Outside.{HttpRequest, HttpOutcome, response, http_error, other_error, search}
use the_brain.System.{World, Exec, Loads, parsed, too_deep, pure, throw, ask, ◌>>=◌}
use the_brain.Workflow.Models.{MemoryVaultStep}
use the_brain.Runner.Models.{StepResult, failure, succeeded}
use the_brain.Config.{Settings}
use the_brain.Executors.Shell.{or_text}
use the_brain.Executors.Llm.{rstrip_slash, bearer_of, is_success_status}

abbrev space_of : Option Text → Option Text
space_of none = none
space_of (some []) = none
space_of (some (c ∷ s)) = some (c ∷ s)

-- `min(limit, _MV_MAX_LIMIT)`
unfoldable pub clamped : ℤ → ℤ
clamped limit = if leb_ℤ limit (pos 50) then limit else pos 50

unfoldable pub vault_url : Settings → Text
unfolding rstrip_slash
vault_url settings = rstrip_slash settings.memory_vault_url ++ codes "/api/search"

unfoldable pub search_request : Settings → MemoryVaultStep → HttpRequest
unfolding vault_url clamped
search_request settings step = record {
  url = vault_url settings;
  payload = search step.query (clamped step.limit) (space_of step.space);
  bearer = bearer_of settings.memory_vault_token;
  timeout = pos 30000;
}

-- What `search` returns or raises: the hits, a `MemoryVaultError`, or another exception.
pub data Hits : Type 0 where
  hits : Json → Hits
  vault_error : Failure → Hits
  escapes : Exn → Hits

abbrev or_no_items : Option Json → Json
or_no_items none = arr nil
or_no_items (some j) = j

-- `data.get("results", [])`
unfoldable pub results_of : Loads → Hits
results_of (parsed (obj fs)) = hits (or_no_items (get_field (codes "results") fs))
results_of (parsed null) = escapes other_exception
results_of (parsed (Json.bool b)) = escapes other_exception
results_of (parsed (int n)) = escapes other_exception
results_of (parsed (Json.real x)) = escapes other_exception
results_of (parsed (str s)) = escapes other_exception
results_of (parsed (arr xs)) = escapes other_exception
results_of Loads.not_json = escapes other_exception
results_of too_deep = escapes other_exception

unfoldable pub search_outcome : World → Text → HttpOutcome → Hits
unfolding results_of
search_outcome w url (response status text) =
    if is_success_status status
    then results_of (w.loads text)
    else vault_error (vault_status status url (take 300 text))
search_outcome w url http_error = vault_error (vault_unreachable url)
search_outcome w url other_error = escapes other_exception
search_outcome w url HttpOutcome.interrupted = escapes base_exception

-- `MemoryVaultClient.search`
unfoldable pub search_vault : Settings → MemoryVaultStep → Exec Hits
unfolding search_request search_outcome vault_url
search_vault settings step =
    ask λ w n. search_outcome w (vault_url settings) (w.post n (search_request settings step))

-- `r.get("content", "")` of a hit, which `join` takes: `none` where one of these raises.
abbrev content_of : Option Json → Option Text
content_of none = some []
content_of (some (str s)) = some s
content_of (some null) = none
content_of (some (Json.bool b)) = none
content_of (some (int n)) = none
content_of (some (Json.real x)) = none
content_of (some (arr xs)) = none
content_of (some (obj fs)) = none

unfoldable pub hit_content : Json → Option Text
hit_content (obj fs) = content_of (get_field (codes "content") fs)
hit_content null = none
hit_content (Json.bool b) = none
hit_content (int n) = none
hit_content (Json.real x) = none
hit_content (str s) = none
hit_content (arr xs) = none

abbrev both : Option Text → Option (List Text) → Option (List Text)
both (some t) (some ts) = some (t ∷ ts)
both (some t) none = none
both none ts = none

unfoldable pub contents : Items → Option (List Text)
unfolding hit_content
contents nil = some []
contents (cons j js) = both (hit_content j) (contents js)

-- The texts of the hits. Of an object the loop takes the keys, and of a text the characters, which have
-- no `get`.
unfoldable pub hit_texts : Json → Option (List Text)
unfolding contents
hit_texts (arr js) = contents js
hit_texts (obj end) = some []
hit_texts (obj (field k v fs)) = none
hit_texts (str []) = some []
hit_texts (str (c ∷ s)) = none
hit_texts null = none
hit_texts (Json.bool b) = none
hit_texts (int n) = none
hit_texts (Json.real x) = none

abbrev pub joined_result : Text → Option (List Text) → Exec StepResult
joined_result name (some texts) =
    pure (succeeded name (or_text (join (codes "\n\n") texts) (codes "(no results)")))
joined_result name none = throw other_exception

unfoldable pub vault_result : Text → Hits → Exec StepResult
unfolding hit_texts
vault_result name (hits j) = joined_result name (hit_texts j)
vault_result name (vault_error e) = pure (failure name e)
vault_result name (escapes e) = throw e

-- `MemoryVaultExecutor.execute`
unfoldable pub execute_vault : Settings → MemoryVaultStep → Exec StepResult
unfolding search_vault vault_result
execute_vault settings step = do
  outcome ← search_vault settings step
  vault_result step.name outcome
