-- ===== src/Executors/Dispatch.antt =====
-- `get_executor` of src/executors/base.py.
use the_brain.System.{Exec}
use the_brain.Workflow.Models.{Step}
use the_brain.Runner.Models.{StepResult}
use the_brain.Config.{Settings}
use the_brain.Executors.Shell.{execute_shell}
use the_brain.Executors.Llm.{execute_llm}
use the_brain.Executors.Vault.{execute_vault}
use the_brain.Executors.Tool.{execute_tool}

-- `get_executor(step).execute(step)`
unfoldable pub execute : Settings → Step → Exec StepResult
unfolding execute_shell execute_llm execute_vault execute_tool
execute settings (Step.memory_vault step) = execute_vault settings step
execute settings (Step.llm step) = execute_llm settings step
execute settings (Step.shell step) = execute_shell step
execute settings (Step.mcp_tool step) = execute_tool step
