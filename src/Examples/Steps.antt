-- ===== src/Examples/Steps.antt =====
-- The theorems on the steps and the MCP client applied to concrete ones.
use the_brain.Runner.Resolve.Same.{resolve_step-SameStep, SameStep}
use the_brain.Runner.Resolve.{resolve_step}
use the_brain.Executors.Tame.{run_executors-Returns}
use the_brain.System.Returns.{Returns}
use the_brain.Runner.Run.{run_workflow, started_run}
use the_brain.Mcp.Tame.{Uninterrupted}
use the_brain.Mcp.Answers.{call_tool-Answers, Answers}
use the_brain.Executors.Processes.{brain_executor, execute-IsResultOf}
use the_brain.Mcp.Messages.{do_call_tool, call_request}
use the_brain.Prelude.Int.{pos}
use the_brain.Runner.Models.{succeeded}
use the_brain.Outside.{Communicated, message, Line}
use the_brain.Json.{str, get_field, int, field, obj, end, Fields}
use the_brain.Executors.Results.{IsResultOf}
use the_brain.Examples.{two_steps, calm_world, system}
use the_brain.Text.{join, text_beq, codes}
use the_brain.Prelude.{
  none, arith, ◌≤◌, ◌++◌, nat_eq, ◌==◌, List, ◌∷◌, if◌then◌else◌, [], ◌≡◌, true, any, ℕ, some,
}
use the_brain.Config.{database_url, Settings}
use the_brain.Mcp.Session.{timed_call, is_connected, call_tool}
use the_brain.Workflow.Models.{step_name, mcp_tool, McpToolStep}
use the_brain.System.{System, World}
use the_brain.Mcp.Stderr.{consume_stderr-Bounded, bytes, no_tail, consume_stderr}
use the_brain.Prelude.{refl}
use the_brain.Executors.Dispatch.{execute}
use the_brain.Mcp.Client.{new_client, Client}

abbrev settings : Settings
settings = record {
  db_host = codes "localhost";
  db_port = 5432;
  db_name = codes "the_brain";
  db_user = codes "the_brain";
  db_password = codes "pw";
  memory_vault_url = codes "http://localhost:8000";
  memory_vault_token = [];
  llm_base_url = codes "http://localhost:1234/v1";
  llm_api_key = codes "lm-studio";
  llm_model = [];
  log_level = codes "INFO";
}

abbrev answer : ℕ → Fields → Line
answer id result =
    message (obj (field (codes "id") (int (pos id)) (field (codes "result") (obj result) end)))

-- A server that answers the handshake and then one call.
abbrev tool_world : World
tool_world = record calm_world { mcp_read = λ n. if n == 2 then answer 1 end else answer 2 end }

abbrev tool_step : McpToolStep
tool_step = record {
  name = codes "t";
  server_command = codes "srv";
  tool = codes "ls";
  args = [];
  timeout_seconds = pos 30000;
}

execute-IsResultOf_example :
    IsResultOf (codes "t") (succeeded (codes "t") [])
    × ((execute settings (mcp_tool tool_step) tool_world system).1.db ≡ system.db)
    × ((execute settings (mcp_tool tool_step) tool_world system).1.processes ≡ [])
unfolding any execute get_field text_beq step_name
execute-IsResultOf_example =
    execute-IsResultOf settings (mcp_tool tool_step) tool_world system (succeeded (codes "t") [])
      refl refl

abbrev connected : Client
connected = record new_client { process = some 0; next_request_id = 2; handshake_done = true }

abbrev with_server : System
with_server = record system { calls = 4; processes = 0 ∷ [] }

call_tool-Answers_example :
    (is_connected connected ≡ true)
    × ((call_tool (codes "ls") end tool_world (with_server, connected)).1.1.sent
        ≡ call_request (codes "ls") end 2 ∷ [])
    × Answers tool_world 5 2 end
unfolding call_tool timed_call do_call_tool get_field text_beq
call_tool-Answers_example =
    call_tool-Answers (codes "ls") end tool_world with_server connected end refl

abbrev chunks : List (List ℕ)
chunks = (1 ∷ 2 ∷ []) ∷ (3 ∷ []) ∷ []

consume_stderr-Bounded_example :
    let tail = consume_stderr no_tail chunks in
    ((dropped : List (List ℕ)) × (chunks ≡ dropped ++ tail.chunks))
    × (tail.chunks ≡ [] → chunks ≡ [])
    × (tail.size ≡ bytes tail.chunks)
    × (tail.size ≤ 4096)
consume_stderr-Bounded_example = consume_stderr-Bounded chunks (omega arith, (omega arith, tt))

uninterrupted : Uninterrupted calm_world
uninterrupted = record {
  shell_spawn = λ n c h. cc;
  shell_communicate = λ n t h. cc;
  shell_wait = λ n. refl;
  post = λ n r h. cc;
  write = λ n m h. cc;
  read = λ n h. cc;
}

run_executors-Returns_example :
    Returns
      (run_workflow (brain_executor settings) none two_steps (codes "/w.py") none)
      calm_world
      system
unfolding any started_run
run_executors-Returns_example =
    run_executors-Returns settings calm_world uninterrupted two_steps (codes "/w.py") none system
      (λ n. refl) refl

abbrev use_a : McpToolStep
use_a = record tool_step { args = (codes "n", int (pos 3)) ∷ (codes "p", str (codes "x")) ∷ [] }

resolve_step-SameStep_example : SameStep (mcp_tool use_a) (mcp_tool use_a)
unfolding resolve_step text_beq
resolve_step-SameStep_example =
    resolve_step-SameStep calm_world [] none none (mcp_tool use_a) (mcp_tool use_a) refl

-- Every shell command takes too long.
abbrev slow_world : World
slow_world = record calm_world { shell_communicate = λ n t. Communicated.timed_out }

-- The "@" of a password may as well be that of the host.
same_database_url :
    database_url
      (λ n. codes "5432")
      (record settings { db_password = codes "a@b"; db_host = codes "c" })
    ≡ database_url
        (λ n. codes "5432")
        (record settings { db_password = codes "a"; db_host = codes "b@c" })
unfolding database_url join
same_database_url = refl
