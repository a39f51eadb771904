-- ===== src/Diff/Numbering.antt =====
-- diff-parser.ts: `parsePatch`, which numbers the lines of each hunk.
use reins.Base.{ℕ, suc, ◌+◌, Bool, true, false, Option, none, some, List, [], ◌∷◌, Text, count, map}
use reins.Diff.Unified.{plus, minus, space, ParsedLine, ParsedHunk, ParsedFile, parse_unified_diff}

pub data LineType : Type 0 where
  context add remove : LineType

pub record DiffLine : Type 0 where
  pub line_type : LineType
  pub text : Text
  pub old_line : Option ℕ
  pub new_line : Option ℕ

pub record DiffHunk : Type 0 where
  pub header : Text
  pub lines : List DiffLine

pub record DiffFile : Type 0 where
  pub path : Text
  pub additions : ℕ
  pub removals : ℕ
  pub hunks : List DiffHunk

-- The `map` over the lines of a hunk, with the two counters that it advances.
unfoldable pub number_lines : (old new : ℕ) → List ParsedLine → List DiffLine
number_lines old new [] = []
number_lines old new (l ∷ ls) = elim l.prefix [
  | plus ↦
      record { line_type = add; text = l.text; old_line = none; new_line = some new }
      ∷ number_lines old (suc new) ls
  | minus ↦
      record { line_type = remove; text = l.text; old_line = some old; new_line = none }
      ∷ number_lines (suc old) new ls
  | space ↦
      record { line_type = context; text = l.text; old_line = some old; new_line = some new }
      ∷ number_lines (suc old) (suc new) ls
]

unfoldable pub number_hunk : ParsedHunk → DiffHunk
number_hunk h = record { header = h.header; lines = number_lines h.old_start h.new_start h.lines }

abbrev pub is_plus : ParsedLine → Bool
is_plus l = elim l.prefix [ plus ↦ true | minus ↦ false | space ↦ false ]

abbrev pub is_minus : ParsedLine → Bool
is_minus l = elim l.prefix [ plus ↦ false | minus ↦ true | space ↦ false ]

-- How often a counter is advanced over the hunks of a file.
abbrev pub tally : (ParsedLine → Bool) → List ParsedHunk → ℕ
tally p [] = 0
tally p (h ∷ hs) = count p h.lines + tally p hs

unfoldable pub number_file : ParsedFile → DiffFile
number_file f = record {
  path = f.path;
  additions = tally is_plus f.hunks;
  removals = tally is_minus f.hunks;
  hunks = map number_hunk f.hunks;
}

-- `parsePatch`.
unfoldable pub parse_patch : Text → List DiffFile
parse_patch raw = map number_file (parse_unified_diff raw)
