-- ===== src/Anchors/Select.antt =====
-- review-diff-anchor.ts: `reviewAnchorFromPatch`. The hash of a patch is outside and a parameter.
use reins.Base.{
  ℕ, zero, suc, ◌-◌, Bool, true, ◌&&◌, ◌||◌, Option, none, some, List, [], ◌∷◌, ◌++◌, Text, text,
  text_eq, starts_with, length, drop, ltb, ◌==◌, if◌then◌else◌,
}
use reins.Patch.Hunks.{is_terminator}
use reins.Diff.Numbering
use reins.Review.Model
use reins.Diff.Numbering.{LineType, add, remove, context, DiffHunk, DiffFile, parse_patch}
use reins.Review.Model.{Side, old, new, LineKind, addition, deletion, Anchor}

-- `ReviewDiffSelection`.
pub record Selection : Type 0 where
  pub path : Text
  pub side : Side
  pub start_line : ℕ
  pub end_line : ℕ

-- What it throws.
pub data Problem : Type 0 where
  invalid_range : Problem
  file_not_found : Text → Problem
  line_not_available : ℕ → Side → Text → Problem

pub data Result (A : Type 0) : Type 0 where
  ok : A → Result A
  err : Problem → Result A

-- A line of a side with its number.
pub record NumberedLine : Type 0 where
  pub kind : LineKind
  pub text : Text
  pub line : ℕ

abbrev numbered : LineKind → Text → Option ℕ → List NumberedLine
numbered kind text none = []
numbered kind text (some line) = record { kind = kind; text = text; line = line } ∷ []

-- What a line of a hunk adds to `diffLines`.
abbrev pub shown_on : Side → Numbering.DiffLine → List NumberedLine
shown_on side l = elim l.line_type [
  | add ↦ elim side [ old ↦ [] | new ↦ numbered addition l.text l.new_line ]
  | remove ↦ elim side [ old ↦ numbered deletion l.text l.old_line | new ↦ [] ]
  | context ↦ numbered LineKind.context l.text (elim side [ old ↦ l.old_line | new ↦ l.new_line ])
]

abbrev pub hunk_lines : Side → List Numbering.DiffLine → List NumberedLine
hunk_lines side [] = []
hunk_lines side (l ∷ ls) = shown_on side l ++ hunk_lines side ls

-- `diffLines`.
unfoldable pub diff_lines : Side → List DiffHunk → List NumberedLine
diff_lines side [] = []
diff_lines side (h ∷ hunks) = hunk_lines side h.lines ++ diff_lines side hunks

-- The text before the first `diff --git ` that begins a line, and the pieces that begin with one.
unfoldable pub pieces_from : Bool → Text → Text × List Text
pieces_from at_start [] = ([], [])
pieces_from at_start (c ∷ t) =
    let (front, pieces) = pieces_from (is_terminator c) t in
    if at_start && starts_with (c ∷ t) (text "diff --git ")
    then ([], (c ∷ front) ∷ pieces)
    else (c ∷ front, pieces)

abbrev pub first_of : {A : Type 0} → List A → Option A
first_of [] = none
first_of (x ∷ xs) = some x

unfoldable pub find_piece : Text → List Text → Option (Text × DiffFile)
find_piece path [] = none
find_piece path (p ∷ pieces) =
    let later = find_piece path pieces in
    elim (first_of (parse_patch p)) [
      | none ↦ later
      | some diff ↦ if text_eq diff.path path then some (p, diff) else later
    ]

-- `findFilePatch`.
unfoldable pub find_file_patch : Text → Text → Option (Text × DiffFile)
find_file_patch patch path = find_piece path (pieces_from true patch).1

-- The lines of a text for `^` and `$`.
unfoldable pub lines_of : Text → Text → List Text
lines_of line [] = line ∷ []
lines_of line (c ∷ t) =
    let closed = line ∷ lines_of [] t in
    let longer = lines_of (line ++ c ∷ []) t in if is_terminator c then closed else longer

-- The group of a regular expression such as `^rename from (.+)$`.
unfoldable pub behind : Text → List Text → Option Text
behind word [] = none
behind word (l ∷ ls) =
    if starts_with l word && ltb (length word) (length l)
    then some (drop (length word) l)
    else behind word ls

-- `oldPath`.
unfoldable pub old_path : Text → Text → Option Text
old_path file_patch current_path =
    let ls = lines_of [] file_patch in
    elim (behind (text "rename from ") ls) [
      | some renamed ↦ some renamed
      | none ↦ elim (behind (text "--- ") ls) [
        | none ↦ none
        | some marker ↦
            let normalized = if starts_with marker (text "a/") then drop 2 marker else marker in
            if text_eq marker (text "/dev/null") || text_eq normalized current_path
            then none
            else some normalized
      ]
    ]

unfoldable pub find_line : ℕ → List NumberedLine → Option NumberedLine
find_line line [] = none
find_line line (l ∷ ls) = if l.line == line then some l else find_line line ls

-- The loop over the selected lines, of which `n` are left.
unfoldable pub select : List NumberedLine → Selection → ℕ → ℕ → Result (List Model.DiffLine)
select available s line zero = ok []
select available s line (suc n) = elim (find_line line available) [
  | none ↦ err (line_not_available line s.side s.path)
  | some found ↦ elim (select available s (suc line) n) [
    | err problem ↦ err problem
    | ok lines ↦ ok (record { kind = found.kind; text = found.text } ∷ lines)
  ]
]

-- The evidence of the selected lines of a file's patch.
abbrev pub anchor_in :
    (Text → Text) → Selection → Text → DiffFile → Result (List Model.DiffLine) → Result Anchor
anchor_in sha256 s file_patch diff (err problem) = err problem
anchor_in sha256 s file_patch diff (ok lines) = ok (record {
  path = diff.path;
  old_path = old_path file_patch diff.path;
  side = s.side;
  start_line = s.start_line;
  lines = lines;
  file_fingerprint = some (text "sha256:" ++ sha256 file_patch);
  file_patch = file_patch;
  base_revision = none;
  head_revision = none;
})

abbrev pub in_file : (Text → Text) → Selection → Option (Text × DiffFile) → Result Anchor
in_file sha256 s none = err (file_not_found s.path)
in_file sha256 s (some (file_patch, diff)) =
    anchor_in sha256 s file_patch diff
      (select (diff_lines s.side diff.hunks) s s.start_line (suc s.end_line - s.start_line))

-- `reviewAnchorFromPatch`.
unfoldable pub review_anchor_from_patch : (Text → Text) → Text → Selection → Result Anchor
review_anchor_from_patch sha256 patch s =
    if ltb s.start_line 1 || ltb s.end_line s.start_line
    then err invalid_range
    else in_file sha256 s (find_file_patch patch s.path)
