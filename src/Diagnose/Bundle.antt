-- ===== src/Diagnose/Bundle.antt =====
-- The files of the bundle of src/diagnose.py.
use the_brain.Text.{Text}
use the_brain.Messages.{Exn}
use the_brain.Prelude.{◌⊎◌, ◌≡◌, List, [], ◌++◌, map}
use the_brain.System.{System, ok, raise}
use the_brain.Diagnose.{Written, File, Entry}

abbrev pub kept : File → Entry
kept (name, content) = (name, ok content)

-- The files are the first ones of the list; all of it, where the code returned.
abbrev pub IsBeginning : List Entry → Written → Type 0
IsBeginning entries (files, r) =
    (missing : List Entry) × (map kept files ++ missing ≡ entries)
    × (((missing ≡ []) × (r ≡ ok tt)) ⊎ ((e : Exn) × (r ≡ raise e)))
