-- ===== src/TopologyFile.antt =====
-- What the scripts that read a topology file do with its lines.
use ns3_sim.Prelude.{Bool, true, List, [], ◌∷◌, ◌++◌, ◌==◌, nat_eq, if◌then◌else◌}
use ns3_sim.Python.Outcome.{Outcome, ok, raise, index_error, value_error, last, or_raise, ◌>>=◌}
use ns3_sim.Python.Text.{Text, codes, split, join, drop_last}
use ns3_sim.Python.Float.{Floats}

-- spfs.py, disconnect.py and fail_gen.py: `line[0] == '#'`; an empty line raises `IndexError`.
unfoldable pub is_comment : Text → Outcome Bool
is_comment [] = raise index_error
is_comment (c ∷ line) = ok (c == b'#')

-- ntf_parser.py and test.py: `line == '' or line[0] == '#'`.
unfoldable pub is_skipped : Text → Bool
is_skipped [] = true
is_skipped (c ∷ line) = c == b'#'

-- The lines that are neither empty nor comments.
abbrev pub kept_lines : List Text → List Text
kept_lines [] = []
kept_lines (line ∷ lines) =
    let rest = kept_lines lines in if is_skipped line then rest else line ∷ rest

-- `new_line` of test.py, which ntf_parser.py has in the same words. `format6` is `format(x, '.6f')`.
module _ (floats : Floats) (format6 : floats.Float → Text) where
  open floats use {parse}

  unfoldable pub new_line : Text → Outcome Text
  new_line line = do
    let splitted = split 32 line
    delay ← last splitted
    seconds ← or_raise value_error (parse delay)
    ok (join (codes " ") (drop_last splitted ++ format6 seconds ∷ []))
