-- ===== src/Examples/Requests.antt =====
-- The theorems on signatures, requests and file events applied to concrete ones.
use the_brain.Messages.{unique_violation}
use the_brain.Triggers.Watcher.Fires.{fires_of-Spaced, fires_of}
use the_brain.Json.{Json}
use the_brain.Scheduler.Daemon.Recovery.{failed_row}
use the_brain.Triggers.Watcher.Pool.{sync}
use the_brain.Triggers.Watcher.Pool.Synced.{sync-Synced, Synced}
use the_brain.Cli.Alive.{watcher_status-healthy}
use the_brain.Cli.Status.{healthy, watcher_status}
use the_brain.Api.Disabled.{set_webhook_enabled-Refused}
use the_brain.Cli.Commands.{run_command-AllDistinct}
use the_brain.Cli.{register_webhook_command, Command, run_command, set_webhook_enabled}
use the_brain.Cli.Registrations.{AllDistinct}
use the_brain.Workflow.Paths.{file_name, suffix}
use the_brain.Workflow.Loader.{import_workflow_from_file}
use the_brain.Runner.Models.{TriggerContext, WorkflowRun, watcher_restarted}
use the_brain.Database.{FileWatcher, Webhook}
use the_brain.Database.Runs.{is_running}
use the_brain.Runner.Run.{started_run}
use the_brain.System.{raise, System, ok, fetch}
use the_brain.Triggers.Hmac.Signatures.{
  verify_signature_iff, verify_signature-hexdigest, Signs, digit, hexdigest,
}
use the_brain.Api.Guards.{
  lookup-build_webhook_trigger_context, visible_headers, webhook_endpoint-MayRun, MayRun,
  run_endpoint-Authorized, Authorized,
}
use the_brain.Triggers.Watcher.Debounce.{recover_file_orphans-done, Spaced}
use the_brain.Api.{
  context_body, build_webhook_trigger_context, Detail, rejected, is_ascii, compare_tokens,
  require_token, run_endpoint, run_webhook, webhook_of, allowlist, webhook_endpoint, safe_headers,
}
use the_brain.Triggers.Hmac.{fromhex, verify_signature, compute_digest}
use the_brain.Triggers.Watcher.{
  file_context, watcher_heartbeat, recover_file_orphans, file_running, Key,
}
use the_brain.Prelude.{
  ◌==◌, suc, ◌<◌, ap, ◌≢◌, arith, find, List, refl, ℕ, ◌≡◌, ◌↔◌, true, false, none, some, [], ◌∷◌,
  any, count, if◌then◌else◌,
}
use the_brain.Text.{lower, Text, codes, text_eq, text_beq, strip_prefix}
use the_brain.Dict.{Dict, lookup}
use the_brain.Examples.{left_running, calm_world, echo, system}

abbrev body : List ℕ
body = b'{' ∷ b'}' ∷ []

verify_signature_iff_example :
    (verify_signature calm_world (codes "s3cret") body (some (codes "sha256=aB 07")) ≡ true)
    ↔ Signs (compute_digest calm_world (codes "s3cret") body) (some (codes "sha256=aB 07"))
unfolding compute_digest
verify_signature_iff_example =
    verify_signature_iff calm_world (codes "s3cret") body (some (codes "sha256=aB 07")) (λ h. cc)

verify_signature-hexdigest_example :
    verify_signature calm_world (codes "s3cret") body (some (codes "sha256=ab07")) ≡ true
unfolding compute_digest hexdigest digit
verify_signature-hexdigest_example =
    verify_signature-hexdigest calm_world (codes "s3cret") body ((10, 11) ∷ (0, 7) ∷ [])
      ((omega arith, omega arith), ((omega arith, omega arith), tt)) refl

differs : (n k : ℕ) → n < k → k ≢ n
differs n k h e = omega (arith, h, e)

abbrev signed : Dict Text Text
signed = (codes "x-brain-signature", codes "sha256=ab07") ∷ (codes "cookie", codes "c") ∷ []

webhook_endpoint-MayRun_example :
    (row : Webhook) × (webhook_of (codes "w") system.db ≡ some row)
    × MayRun calm_world body signed row
unfolding webhook_endpoint run_webhook import_workflow_from_file suffix file_name fetch
    verify_signature compute_digest fromhex strip_prefix find lookup text_beq
webhook_endpoint-MayRun_example =
    webhook_endpoint-MayRun echo calm_world body signed (codes "w") system
      (λ h. differs 1 3 (omega arith) (ap (λ s. s.calls) h))

run_endpoint-Authorized_example :
    Authorized (codes "t") (some (record { scheme = codes "Bearer"; credentials = codes "t" }))
unfolding run_endpoint require_token compare_tokens is_ascii lower text_beq
    import_workflow_from_file suffix file_name
run_endpoint-Authorized_example =
    run_endpoint-Authorized echo calm_world (codes "t")
      (some (record { scheme = codes "Bearer"; credentials = codes "t" })) (codes "/w.txt") system
      (λ h. differs 0 2 (omega arith) (ap (λ s. s.calls) h))

lookup-build_webhook_trigger_context_example :
    let c : TriggerContext = record {
      event = some (codes "webhook");
      body = Json.str body;
      headers = some (safe_headers allowlist signed);
      path = none;
    } in
    (c.event ≡ some (codes "webhook"))
    × (c.path ≡ none)
    × ((shown : Dict Text Text) × (c.headers ≡ some shown)
        × ((name : Text)
            → lookup name shown
              ≡ (if any (λ n. n == name) visible_headers then lookup name signed else none)))
unfolding build_webhook_trigger_context context_body
lookup-build_webhook_trigger_context_example =
    lookup-build_webhook_trigger_context body signed calm_world system
      (record {
        event = some (codes "webhook");
        body = Json.str body;
        headers = some (safe_headers allowlist signed);
        path = none;
      })
      refl

abbrev key : Key
key = (codes "w", codes "/in/a.txt")

-- Three events of one path, and a clock that goes 1000 ms from call to call.
fires_of-Spaced_example : Spaced (fires_of echo calm_world system (key ∷ key ∷ key ∷ []))
fires_of-Spaced_example =
    fires_of-Spaced echo calm_world (λ step. record { at = λ s. (refl, omega arith) })
      (key ∷ key ∷ key ∷ []) system

-- A running row that a file event started, before the running row of the command line.
abbrev file_run : WorkflowRun
file_run = record left_running { id = 78; trigger_context = some (file_context (codes "/in/a")) }

abbrev with_file_run : System
with_file_run = record system { db = record system.db { runs = file_run ∷ left_running ∷ [] } }

recover_file_orphans-done_example :
    ((recover_file_orphans calm_world with_file_run).0 ≡ ok 1)
    × (any file_running (recover_file_orphans calm_world with_file_run).1.db.runs ≡ false)
    × ((recover_file_orphans calm_world with_file_run).1.db ≡ record system.db {
      runs = failed_row watcher_restarted 1000 file_run ∷ left_running ∷ [];
    })
unfolding count file_running started_run is_running text_beq
recover_file_orphans-done_example = recover_file_orphans-done calm_world with_file_run refl

system_distinct : AllDistinct system.db
unfolding any
system_distinct = record { schedules = (refl, tt); webhooks = (refl, tt); watchers = tt }

abbrev register_again : Command
register_again = register_webhook_command (codes "/w.py") (some (codes "w"))

run_command-AllDistinct_example :
    AllDistinct (run_command register_again calm_world system).1.db
    × ((run_command register_again calm_world system).0 ≢ raise unique_violation)
run_command-AllDistinct_example =
    run_command-AllDistinct register_again calm_world system system_distinct

set_webhook_enabled-Refused_example :
    webhook_endpoint echo
      (codes "w")
      body
      signed
      calm_world
      (set_webhook_enabled (codes "w") false calm_world system).1
    ≡ (
      ok (rejected 404 Detail.not_found),
      record (set_webhook_enabled (codes "w") false calm_world system).1 {
        calls = suc (set_webhook_enabled (codes "w") false calm_world system).1.calls;
      },
    )
set_webhook_enabled-Refused_example =
    set_webhook_enabled-Refused echo (codes "w") calm_world system refl calm_world
      (set_webhook_enabled (codes "w") false calm_world system).1 refl refl body signed

abbrev beaten : System
beaten = record (watcher_heartbeat 1000 calm_world system).1 { calls = 7 }

watcher_status-healthy_example : (watcher_status calm_world beaten).0 ≡ ok healthy
watcher_status-healthy_example =
    watcher_status-healthy calm_world 1000 system beaten refl refl refl (omega arith)

abbrev watched : FileWatcher
watched = record {
  workflow_name = codes "w";
  watched_path = codes "/in";
  watched_events = [];
  enabled = true;
  workflow_file_path = none;
}

sync-Synced_example :
    Synced ((codes "w", codes "/in") ∷ []) [] (sync (watched ∷ []) calm_world system).1.live
sync-Synced_example = sync-Synced (watched ∷ []) calm_world system (λ n p. refl)
