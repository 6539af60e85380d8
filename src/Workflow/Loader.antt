-- ===== src/Workflow/Loader.antt =====
-- src/workflow/loader.py: `import_workflow_from_file`. Resolving the path may raise a RuntimeError
-- (a home directory that is not known), and executing the file may raise a BaseException.
use the_brain.Prelude.{List, ◌∷◌, [], ◌++◌, ◌==◌, any, if◌then◌else◌}
use the_brain.Text.{Text, text_eq, codes}
use the_brain.Messages.{
  not_found, not_py, no_loader, exec_error, no_variable, not_workflow, load_error, runtime_error,
  base_exception,
}
use the_brain.Workflow.Models.{Workflow}
use the_brain.Workflow.Paths.{stem, suffix}
use the_brain.Database.Rows.{delete_where}
use the_brain.System.{
  Executed, raised, exited, no_attribute, other_object, defines, Exec, ok, pure, throw, ask,
  raise_unless, or_raise, ◌>>=◌, ◌>>◌,
}

-- `_brain_workflow_<stem>`
unfoldable pub module_name : Text → Text
unfolding stem
module_name file_path = codes "_brain_workflow_" ++ stem file_path

-- `sys.modules[name] = module`
unfoldable pub add_module : Text → List Text → List Text
add_module name modules = if any (λ m. m == name) modules then modules else modules ++ name ∷ []

-- `sys.modules.pop(name, None)`
unfoldable pub pop_module : Text → List Text → List Text
pop_module name = delete_where (λ m. m == name)

abbrev pub change_modules : (List Text → List Text) → Exec (Unit {0})
change_modules f w s = (ok tt, record s { modules = f s.modules })

-- What the rest of the function makes of the executed module.
unfoldable pub loaded : Text → Executed → Exec Workflow
loaded file_path raised = throw (load_error (exec_error file_path))
loaded file_path exited = throw base_exception
loaded file_path no_attribute = throw (load_error (no_variable file_path))
loaded file_path other_object = throw (load_error (not_workflow file_path))
loaded file_path (defines workflow) = pure workflow

-- The function from the check of the resolved path on.
unfoldable pub import_resolved : Text → Exec Workflow
unfolding loaded
import_resolved file_path = do
  exists ← ask (λ w n. w.is_file n file_path)
  raise_unless exists (load_error (not_found file_path))
  raise_unless (suffix file_path == codes ".py") (load_error (not_py file_path))
  found ← ask (λ w n. w.has_loader n file_path)
  raise_unless found (load_error (no_loader file_path))
  change_modules (add_module (module_name file_path))
  outcome ← ask (λ w n. w.exec_module n file_path)
  change_modules (pop_module (module_name file_path))
  loaded file_path outcome

unfoldable pub import_workflow_from_file : Text → Exec Workflow
unfolding import_resolved
import_workflow_from_file path = do
  resolved ← ask (λ w n. w.resolve_path n path)
  file_path ← or_raise resolved runtime_error
  import_resolved file_path
