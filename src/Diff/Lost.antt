-- ===== src/Diff/Lost.antt =====
-- diff-parser.ts: the lines that look like the header of a file.
use reins.Base.{◌≡◌, refl, ap, List, [], ◌∷◌, ◌++◌, Text, text}
use reins.Diff.Unified.{State, read_line, read_lines}

read_line-dashes : (st : State) (t : Text) → read_line st (text "---" ++ t) ≡ st
unfolding read_line
read_line-dashes st t = refl

read_line-pluses : (st : State) (t : Text) → read_line st (text "+++" ++ t) ≡ st
unfolding read_line
read_line-pluses st t = refl

-- A diff reads the same without a line that begins with `---` or `+++`, wherever the line stands: in
-- a hunk too, where it is a removed line that begins with `--` or an added one that begins with `++`.
pub read_lines-lost :
    (before after : List Text) (st : State) (t : Text)
    → (read_lines st (before ++ (text "---" ++ t) ∷ after) ≡ read_lines st (before ++ after))
      × (read_lines st (before ++ (text "+++" ++ t) ∷ after) ≡ read_lines st (before ++ after))
unfolding read_lines
read_lines-lost [] after st t = (
  ap (λ s. read_lines s after) (read_line-dashes st t),
  ap (λ s. read_lines s after) (read_line-pluses st t),
)
read_lines-lost (l ∷ before) after st t = read_lines-lost before after (read_line st l) t
