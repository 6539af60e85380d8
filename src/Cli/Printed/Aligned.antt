-- ===== src/Cli/Printed/Aligned.antt =====
-- The columns of the printed tables.
use the_brain.Cli.Printed.{
  trigger_header, list_header, history_header, trigger_lines, list_lines, trigger_cells,
  history_lines, columns, duration,
}
use the_brain.Cli.Truncate.{truncate-Fits}
use the_brain.Cli.Lists.{Listed, file, webhook, cron, Trigger}
use the_brain.Cli.Reports.{truncate}
use the_brain.Cli.Printed.{
  short_id, time_or_dash, history_line, list_line, Formats, dash, yes_no, status_text, left_in,
  spaces, trigger_line,
}
use the_brain.Text.{codes, Text}
use the_brain.Prelude.{
  Option, ◌≤◌, map, length-append, All, zero, suc, true, false, append_assoc, sym, ◌∙◌, ◌-◌, arith,
  ap, suc, Bool, take, ◌<◌, length, ◌++◌, ◌≡◌, ◌∷◌, ℕ, List, [], none, some, inl, inr, refl,
}
use the_brain.Runner.Models.{WorkflowRun, Status, running, success, failed}

-- A line begins with columns of these widths, each of which ends with a space.
abbrev pub Aligned : List ℕ → Text → Type 0
Aligned [] line = Unit
Aligned (w ∷ ws) line =
    (column rest : Text) × (line ≡ (column ++ b' ' ∷ []) ++ rest)
    × (length (column ++ b' ' ∷ []) ≡ w)
    × Aligned ws rest

length-spaces : (n : ℕ) → length (spaces n) ≡ n
unfolding spaces
length-spaces zero = refl
length-spaces (suc n) = ap suc (length-spaces n)

spaces_last : (n : ℕ) → spaces (suc n) ≡ spaces n ++ b' ' ∷ []
unfolding spaces
spaces_last zero = refl
spaces_last (suc n) = ap (λ t. b' ' ∷ t) (spaces_last n)

-- A text that is shorter than the column leaves room for a space.
left_in-Aligned :
    (w : ℕ) (ws : List ℕ) (text rest : Text)
    → length text < w
    → Aligned ws rest
    → Aligned (w ∷ ws) (left_in w text ++ rest)
left_in-Aligned w ws text rest h k =
    let n = w - suc (length text) in
    let room : w - length text ≡ suc n = omega (arith, h) in
    let padded : left_in w text ≡ (text ++ spaces n) ++ b' ' ∷ [] =
      ap (λ m. text ++ spaces m) room
      ∙ ap (λ t. text ++ t) (spaces_last n)
      ∙ sym (append_assoc text (spaces n) (b' ' ∷ [])) in
    (
      text ++ spaces n,
      rest,
      ap (λ t. t ++ rest) padded,
      length-append (text ++ spaces n) (b' ' ∷ [])
          ∙ (let long = length-append text (spaces n) in
              let wide = length-spaces n in omega (arith, h, long, wide)),
      k,
    )

truncate_short : (text : Text) (w : ℕ) → length (truncate text (suc w)) < suc (suc w)
truncate_short text w = elim (truncate-Fits text w) [
  | inl (same, fits) ↦ rw same (omega (arith, fits))
  | inr (full, _) ↦ omega (arith, full)
]

status_short : (s : Status) → length (status_text s) < 10
status_short running = omega arith
status_short success = omega arith
status_short failed = omega arith

yes_no_short : (b : Bool) → length (yes_no b) < 10
yes_no_short true = omega arith
yes_no_short false = omega arith

take_short : (n : ℕ) (t : Text) → length (take n t) < suc n
take_short zero t = omega arith
take_short (suc n) [] = omega arith
take_short (suc n) (c ∷ t) = let ih = take_short n t in omega arith

abbrev pub history_columns : List ℕ
history_columns = 10 ∷ 24 ∷ 10 ∷ 22 ∷ []

abbrev pub list_columns : List ℕ
list_columns = 20 ∷ 16 ∷ 10 ∷ 22 ∷ 22 ∷ []

abbrev pub trigger_columns : List ℕ
trigger_columns = 10 ∷ 24 ∷ 10 ∷ []

-- In each column the text is shorter than the width.
abbrev Short : List (ℕ × Text) → Type 0
Short cells = All (λ c. length c.1 < c.0) cells

columns-Aligned :
    (cells : List (ℕ × Text)) (rest : Text)
    → Short cells
    → Aligned (map (λ c. c.0) cells) (columns cells rest)
columns-Aligned [] rest h = tt
columns-Aligned ((w, text) ∷ cells) rest (h, k) =
    left_in-Aligned w (map (λ c. c.0) cells) text (columns cells rest) h
      (columns-Aligned cells rest k)

trigger_cells-Short :
    (kind name : Text) (enabled : Bool) → length kind < 10 → Short (trigger_cells kind name enabled)
unfolding trigger_cells
trigger_cells-Short kind name enabled h = (h, (truncate_short name 22, (yes_no_short enabled, tt)))

trigger_line-Aligned : (t : Trigger) → Aligned trigger_columns (trigger_line t)
unfolding trigger_line trigger_cells
trigger_line-Aligned (cron s) =
    columns-Aligned (trigger_cells (codes "cron") s.workflow_name s.enabled) s.cron_expression
      (trigger_cells-Short (codes "cron") s.workflow_name s.enabled (omega arith))
trigger_line-Aligned (webhook r) =
    columns-Aligned (trigger_cells (codes "webhook") r.workflow_name r.enabled) dash
      (trigger_cells-Short (codes "webhook") r.workflow_name r.enabled (omega arith))
trigger_line-Aligned (file r) =
    columns-Aligned (trigger_cells (codes "file") r.workflow_name r.enabled) r.watched_path
      (trigger_cells-Short (codes "file") r.workflow_name r.enabled (omega arith))

lines-Aligned :
    {A : Type 0} (ws : List ℕ) (line : A → Text)
    → ((a : A) → Aligned ws (line a))
    → (rows : List A) → All (Aligned ws) (map line rows)
lines-Aligned ws line h [] = tt
lines-Aligned ws line h (a ∷ rows) = (h a, lines-Aligned ws line h rows)

history_header-Aligned : Aligned history_columns history_header
history_header-Aligned =
    columns-Aligned
      ((10, codes "RUN")
        ∷ (24, codes "WORKFLOW")
        ∷ (10, codes "STATUS")
        ∷ (22, codes "STARTED")
        ∷ [])
      (codes "DURATION") (omega arith, (omega arith, (omega arith, (omega arith, tt))))

list_header-Aligned : Aligned list_columns list_header
list_header-Aligned =
    columns-Aligned
      ((20, codes "NAME")
        ∷ (16, codes "CRON")
        ∷ (10, codes "ENABLED")
        ∷ (22, codes "LAST RUN")
        ∷ (22, codes "NEXT FIRE")
        ∷ [])
      (codes "FILE") (omega arith, (omega arith, (omega arith, (omega arith, (omega arith, tt)))))

trigger_header-Aligned : Aligned trigger_columns trigger_header
trigger_header-Aligned =
    columns-Aligned ((10, codes "TYPE") ∷ (24, codes "NAME") ∷ (10, codes "ENABLED") ∷ [])
      (codes "DETAIL") (omega arith, (omega arith, (omega arith, tt)))

module _ (formats : Formats) (times : (t : ℕ) → length (formats.time_text t) ≤ 19) where
  time_short : (o : Option ℕ) → length (time_or_dash formats o) < 22
  time_short none = omega arith
  time_short (some t) = omega (arith, times t)

  history_line-Aligned : (r : WorkflowRun) → Aligned history_columns (history_line formats r)
  unfolding history_line
  history_line-Aligned r =
      columns-Aligned
        ((10, short_id formats r.id)
          ∷ (24, truncate r.workflow_name 23)
          ∷ (10, status_text r.status)
          ∷ (22, formats.time_text r.started_at)
          ∷ [])
        (duration formats r.started_at r.ended_at)
        (
          omega (arith, take_short 8 (formats.id_text r.id)),
          (
            truncate_short r.workflow_name 22,
            (status_short r.status, (omega (arith, times r.started_at), tt)),
          ),
        )

  list_line-Aligned : (l : Listed) → Aligned list_columns (list_line formats l)
  unfolding list_line
  list_line-Aligned l =
      columns-Aligned
        ((20, truncate l.schedule.workflow_name 19)
          ∷ (16, truncate l.schedule.cron_expression 15)
          ∷ (10, yes_no l.schedule.enabled)
          ∷ (22, time_or_dash formats l.last_run_at)
          ∷ (22, time_or_dash formats l.schedule.next_run_at)
          ∷ [])
        l.schedule.workflow_file_path
        (
          truncate_short l.schedule.workflow_name 18,
          (
            truncate_short l.schedule.cron_expression 14,
            (
              yes_no_short l.schedule.enabled,
              (time_short l.last_run_at, (time_short l.schedule.next_run_at, tt)),
            ),
          ),
        )

  -- Where a moment takes at most 19 code points, each table with rows has its columns at the same places
  -- in every line, the header included, however long the names are: a column ends with a space, and
  -- counted in code points it has the width of the table's column.
  pub history_lines-Aligned :
      (run : WorkflowRun) (runs : List WorkflowRun) (row : Listed) (rows : List Listed)
      (trigger : Trigger) (triggers : List Trigger)
      → All (Aligned history_columns) (history_lines formats (run ∷ runs))
        × All (Aligned list_columns) (list_lines formats (row ∷ rows))
        × All (Aligned trigger_columns) (trigger_lines (trigger ∷ triggers))
  unfolding history_lines list_lines trigger_lines
  history_lines-Aligned run runs row rows trigger triggers = (
    (
      history_header-Aligned,
      lines-Aligned history_columns (history_line formats) history_line-Aligned (run ∷ runs),
    ),
    (
      list_header-Aligned,
      lines-Aligned list_columns (list_line formats) list_line-Aligned (row ∷ rows),
    ),
    (
      trigger_header-Aligned,
      lines-Aligned trigger_columns trigger_line trigger_line-Aligned (trigger ∷ triggers),
    ),
  )
