-- ===== src/Workflow/Models.antt =====
-- src/workflow/models.py: the step models, the workflow, and the checks of its validators.
-- A float field is carried in thousandths.
use the_brain.Prelude.{
  Bool, true, false, not, ◌&&◌, Option, none, some, List, [], ◌∷◌, ◌==◌, any, is_empty,
  if◌then◌else◌,
}
use the_brain.Prelude.Int.{ℤ, pos, leb_ℤ, ltb_ℤ}
use the_brain.Text.{Text, text_eq, strip}
use the_brain.Dict.{Dict}
use the_brain.Json.{Json}

pub record MemoryVaultStep : Type 0 where
  pub name : Text
  pub query : Text
  pub space : Option Text
  pub limit : ℤ

pub record LlmStep : Type 0 where
  pub name : Text
  pub prompt : Text
  pub system : Option Text
  pub model : Option Text
  pub temperature : ℤ
  pub provider_url : Option Text
  pub api_key : Option Text
  pub timeout_seconds : Option ℤ
  pub max_tokens : Option ℤ

pub record ShellStep : Type 0 where
  pub name : Text
  pub command : Text
  pub timeout : ℤ

pub record McpToolStep : Type 0 where
  pub name : Text
  pub server_command : Text
  pub tool : Text
  pub args : Dict Text Json
  pub timeout_seconds : ℤ

pub data Step : Type 0 where
  memory_vault : MemoryVaultStep → Step
  llm : LlmStep → Step
  shell : ShellStep → Step
  mcp_tool : McpToolStep → Step

-- The discriminator field `type`.
pub data StepType : Type 0 where
  memory_vault llm shell mcp_tool : StepType

unfoldable pub step_name : Step → Text
step_name (Step.memory_vault s) = s.name
step_name (Step.llm s) = s.name
step_name (Step.shell s) = s.name
step_name (Step.mcp_tool s) = s.name

unfoldable pub step_type : Step → StepType
step_type (Step.memory_vault s) = StepType.memory_vault
step_type (Step.llm s) = StepType.llm
step_type (Step.shell s) = StepType.shell
step_type (Step.mcp_tool s) = StepType.mcp_tool

-- `min_length=1`
abbrev filled : Text → Bool
filled s = not (is_empty s)

abbrev within : ℤ → ℤ → ℤ → Bool
within lo hi x = leb_ℤ lo x && leb_ℤ x hi

abbrev optional : (ℤ → Bool) → Option ℤ → Bool
optional p none = true
optional p (some x) = p x

valid_memory_vault : MemoryVaultStep → Bool
valid_memory_vault s = filled s.name && filled s.query && within (pos 1) (pos 100) s.limit

valid_llm : LlmStep → Bool
valid_llm s =
    filled s.name
    && filled s.prompt
    && within (pos 0) (pos 2000) s.temperature
    && optional (ltb_ℤ (pos 0)) s.timeout_seconds
    && optional (leb_ℤ (pos 1)) s.max_tokens

valid_shell : ShellStep → Bool
valid_shell s = filled s.name && filled s.command && within (pos 1) (pos 3600) s.timeout

valid_mcp_tool : McpToolStep → Bool
valid_mcp_tool s =
    filled s.name && filled s.server_command && filled s.tool && ltb_ℤ (pos 0) s.timeout_seconds

-- The field constraints of a step's model.
unfoldable pub valid_step : Step → Bool
unfolding valid_memory_vault valid_llm valid_shell valid_mcp_tool
valid_step (Step.memory_vault s) = valid_memory_vault s
valid_step (Step.llm s) = valid_llm s
valid_step (Step.shell s) = valid_shell s
valid_step (Step.mcp_tool s) = valid_mcp_tool s

pub record Workflow : Type 0 where
  pub name : Text
  pub steps : List Step

-- `_name_no_whitespace`
unfoldable pub name_no_whitespace : Text → Bool
name_no_whitespace v = v == strip v

-- The loop of `_step_names_unique`; `seen` is the set of names met so far.
unfoldable pub names_unique_from : List Text → List Step → Bool
unfolding any
names_unique_from seen [] = true
names_unique_from seen (step ∷ steps) =
    let rest = names_unique_from (step_name step ∷ seen) steps in
    if any (λ n. n == step_name step) seen then false else rest

unfoldable pub step_names_unique : List Step → Bool
unfolding names_unique_from
step_names_unique steps = names_unique_from [] steps

unfoldable pub valid_steps : List Step → Bool
valid_steps [] = true
valid_steps (s ∷ steps) = valid_step s && valid_steps steps

-- Constructing a `Workflow`: `none` stands for pydantic's `ValidationError`.
unfoldable pub make_workflow : Text → List Step → Option Workflow
unfolding name_no_whitespace step_names_unique valid_steps
make_workflow name steps =
    if filled name
      && name_no_whitespace name
      && not (is_empty steps)
      && valid_steps steps
      && step_names_unique steps
    then some (record { name = name; steps = steps })
    else none
