-- ===== src/Terminal.antt =====
-- Reading the terminal: `fgetc`, `fgets`, and the loops that skip the rest of a line.
use bbg_vo_ip.Prelude.{
  ℕ, zero, suc, ◌-◌, ◌==◌, if◌then◌else◌, List, [], ◌∷◌, Option, none, some, Text,
}
use bbg_vo_ip.Prelude.Int.{ℤ, pos, negsuc}
use bbg_vo_ip.Sys.{ok, unfinished}
use bbg_vo_ip.World.{Act}

abbrev pub newline : ℕ
newline = 10

-- What `fgetc` returns: -1 is EOF.
abbrev pub first_char : List ℕ → ℤ
first_char [] = negsuc 0
first_char (c ∷ rest) = pos c

abbrev pub after_char : List ℕ → List ℕ
after_char [] = []
after_char (c ∷ rest) = rest

-- `fgetc(stdin)`
unfoldable pub get_char : Act ℤ
get_char w = (ok (first_char w.stdin), record w { stdin = after_char w.stdin })

-- What is left behind the next newline; nothing if there is none.
unfoldable pub after_line : List ℕ → List ℕ
after_line [] = []
after_line (c ∷ rest) = let more = after_line rest in if c == newline then rest else more

-- `while ((ch = fgetc(stdin)) != EOF && ch != '\n') {}` with an `int ch`
unfoldable pub skip_line : Act Unit
skip_line w = (ok tt, record w { stdin = after_line w.stdin })

-- The same with a `char ch`, which is unsigned on the target and so never equal to EOF: at the end of
-- the file the loop does not end.
unfoldable pub has_newline : List ℕ → Act Unit
has_newline [] w = (unfinished, record w { stdin = [] })
has_newline (c ∷ rest) w =
    let more = has_newline rest w in
    if c == newline then (ok tt, record w { stdin = rest }) else more

abbrev pub skip_line_char : Act Unit
skip_line_char w = has_newline w.stdin w

-- The bytes that `fgets` of at most `n` bytes stores, and those that it leaves.
unfoldable pub line : ℕ → List ℕ → Text
line zero input = []
line (suc n) [] = []
line (suc n) (c ∷ rest) = let more = line n rest in if c == newline then c ∷ [] else c ∷ more

unfoldable pub after_fgets : ℕ → List ℕ → List ℕ
after_fgets zero input = input
after_fgets (suc n) [] = []
after_fgets (suc n) (c ∷ rest) =
    let more = after_fgets n rest in if c == newline then rest else more

-- `fgets(buffer, size, stdin)`; nothing is read as NULL.
unfoldable pub get_line : ℕ → Act (Option Text)
get_line size w = (
  ok (elim w.stdin [ [] ↦ none | c ∷ rest ↦ some (line (size - 1) (c ∷ rest)) ]),
  record w { stdin = after_fgets (size - 1) w.stdin },
)
