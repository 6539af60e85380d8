-- ===== src/Scheduler/Cron.antt =====
-- src/scheduler/cron.py. Moments are aware datetimes, converted to UTC; croniter is the world's.
use the_brain.Prelude.{
  Option, ℕ, ◌≡◌, refl, true, false, arith, is_empty, length, ◌==◌, nat_eq, eq_iff, if◌then◌else◌,
}
use the_brain.Text.Strip.{strip-strip}
use the_brain.Text.{Text, strip, words}
use the_brain.System.{World}

pub record CronExpression : Type 0 where
  pub expression : Text

pub data InvalidCronError : Type 0 where
  empty_expression : InvalidCronError
  wrong_fields : Text → InvalidCronError
  refused : Text → InvalidCronError

pub data Parsed : Type 0 where
  valid : CronExpression → Parsed
  invalid : InvalidCronError → Parsed

module _ (w : World) where
  unfoldable pub parse_stripped : Text → Text → Parsed
  parse_stripped expression stripped =
      if is_empty stripped
      then invalid empty_expression
      else if length (words stripped) == 5
      then (if w.cron_accepts stripped
          then valid (record { expression = stripped })
          else invalid (refused expression))
      else invalid (wrong_fields expression)

  unfoldable pub parse : Text → Parsed
  unfolding parse_stripped
  parse expression = parse_stripped expression (strip expression)

  -- `none` is croniter's `CroniterBadDateError`: the expression names no date that it finds.
  unfoldable pub next_fire_after : CronExpression → ℕ → Option ℕ
  next_fire_after cron moment = w.cron_next cron.expression moment

  parse_stripped-valid :
      (text stripped : Text) (cron : CronExpression)
      → parse_stripped text stripped ≡ valid cron
      → (cron ≡ record { expression = stripped })
        × (is_empty stripped ≡ false)
        × ((length (words stripped) == 5) ≡ true)
        × (w.cron_accepts stripped ≡ true)
  unfolding parse_stripped
  parse_stripped-valid text stripped cron h = ground arith

  parse_stripped-accepts :
      (text stripped : Text)
      → is_empty stripped ≡ false
      → (length (words stripped) == 5) ≡ true
      → w.cron_accepts stripped ≡ true
      → parse_stripped text stripped ≡ valid (record { expression = stripped })
  unfolding parse_stripped
  parse_stripped-accepts text stripped a b c = rw (a, b, c)

  -- A parsed expression has five fields, is the stripped text, was accepted by croniter, and is parsed
  -- to itself when it is read back from its text, as the daemon reads what `register` wrote.
  pub parse-valid :
      (text : Text) (cron : CronExpression)
      → parse text ≡ valid cron
      → (length (words cron.expression) ≡ 5)
        × (w.cron_accepts cron.expression ≡ true)
        × (cron.expression ≡ strip text)
        × (parse cron.expression ≡ valid cron)
  unfolding parse
  parse-valid text cron h =
      let (e, filled, five, accepted) = parse_stripped-valid text (strip text) cron h in
      rw e (
        (eq_iff (length (words (strip text))) 5).0 five,
        accepted,
        refl,
        rw (strip-strip text)
            (parse_stripped-accepts (strip text) (strip text) filled five accepted),
      )
