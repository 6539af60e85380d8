-- ===== src/Workflow/Paths.antt =====
-- `PurePath.stem` and `PurePath.suffix` of Python's pathlib, on a resolved path.
use the_brain.Prelude.{ℕ, Option, none, some, List, [], ◌∷◌, ◌==◌, nat_eq, if◌then◌else◌}
use the_brain.Text.{Text, text_eq, split_on}

abbrev last_part : List Text → Text
last_part [] = []
last_part (p ∷ []) = p
last_part (p ∷ q ∷ ps) = last_part (q ∷ ps)

-- `PurePath.name`
unfoldable pub file_name : Text → Text
unfolding split_on
file_name path = last_part (split_on b'/' path)

abbrev at_dot : ℕ → Text → Option (Text × Text) → Option (Text × Text)
at_dot c s (some (before, behind)) = some (c ∷ before, behind)
at_dot c s none = if c == b'.' then some ([], s) else none

-- The text before the last dot, and the text behind it.
split_dot : Text → Option (Text × Text)
split_dot [] = none
split_dot (c ∷ s) = at_dot c s (split_dot s)

-- No suffix where the last dot is the first or the last character.
abbrev stem_suffix : Text → Option (Text × Text) → Text × Text
stem_suffix name none = (name, [])
stem_suffix name (some ([], behind)) = (name, [])
stem_suffix name (some (b ∷ before, [])) = (name, [])
stem_suffix name (some (b ∷ before, c ∷ behind)) = (b ∷ before, b'.' ∷ c ∷ behind)

unfoldable pub stem : Text → Text
unfolding file_name split_dot
stem path = (stem_suffix (file_name path) (split_dot (file_name path))).0

unfoldable pub suffix : Text → Text
unfolding file_name split_dot
suffix path = (stem_suffix (file_name path) (split_dot (file_name path))).1
