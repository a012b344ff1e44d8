-- ===== src/Candump/File.antt =====
-- The file of a trace: its head, and a line for each frame in the order of the writes.
use sockcan.Prelude.{ℕ, ◌+◌, ◌-◌, List, [], ◌∷◌, ◌++◌}
use sockcan.Prelude.{Option, some, Text, codes, str}
use sockcan.Backlog.{Frame}
use sockcan.Candump.{CandumpWriter, TraceDirection, direction_text, trace_line, write}

-- A call of `write`, with the time at which it was made.
pub record Entry : Type 0 where
  pub now : ℕ
  pub direction : TraceDirection
  pub frame : Frame

module _ (format_ms : ℕ → Text) where
  unfoldable pub write_all : List Entry → CandumpWriter → CandumpWriter
  unfolding write
  write_all [] writer = writer
  write_all (e ∷ entries) writer =
      write_all entries (write format_ms e.now e.direction e.frame writer)

  -- The lines that follow the number `n`.
  abbrev pub lines_from : ℕ → ℕ → List Entry → List Text
  lines_from start n [] = []
  lines_from start n (e ∷ entries) =
      trace_line (n + 1) (format_ms (e.now - start)) e.direction e.frame
      ∷ lines_from start (n + 1) entries

  -- What the lines say, with their numbers.
  abbrev pub numbered : ℕ → List Entry → List (Option (Text × Text × Frame))
  numbered n [] = []
  numbered n (e ∷ entries) =
      some (str (n + 1) ++ codes ")", direction_text e.direction, e.frame)
      ∷ numbered (n + 1) entries
