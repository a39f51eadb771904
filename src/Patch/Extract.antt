-- ===== src/Patch/Extract.antt =====
-- patch.ts: `extractFile`.
use reins.Base.{
  ℕ, ◌+◌, Bool, not, ◌||◌, none, some, List, [], ◌∷◌, ◌++◌, Text, text, text_eq, starts_with, ◌==◌,
  if◌then◌else◌,
}
use reins.Patch.Lines.{TextLine, join_text}
use reins.Patch.Hunks.{
  PatchLine, Hunk, incomplete, Result, ok, err, is_terminator, parse_hunks, range_index,
}
use reins.Patch.Reverse.{old_of, new_of}

pub data Side : Type 0 where
  old new : Side

-- Whether a line, between the places that `^` of a regular expression with `m` matches, passes a test.
unfoldable pub any_line : (Text → Bool) → Text → Text → Bool
any_line p line [] = p line
any_line p line (c ∷ cs) =
    let next = any_line p [] cs in
    let longer = any_line p (line ++ c ∷ []) cs in
    if is_terminator c then p line || next else longer

abbrev pub has_line_starting : Text → Text → Bool
has_line_starting start patch = any_line (λ line. starts_with line start) [] patch

abbrev pub has_line : Text → Text → Bool
has_line line patch = any_line (text_eq line) [] patch

-- Whether the side is the null file of a patch that adds or deletes its file.
unfoldable pub is_null_side : Text → Side → Bool
is_null_side patch old =
    has_line (text "--- /dev/null") patch || has_line_starting (text "new file mode ") patch
is_null_side patch new =
    has_line (text "+++ /dev/null") patch || has_line_starting (text "deleted file mode ") patch

abbrev pub side_start : Side → Hunk → ℕ
side_start old h = h.old_start
side_start new h = h.new_start

abbrev pub side_count : Side → Hunk → ℕ
side_count old h = h.old_count
side_count new h = h.new_count

-- The lines of a hunk that stand on a side.
unfoldable pub side_lines : Side → List PatchLine → List TextLine
side_lines side [] = []
side_lines old (l ∷ ls) = old_of l ++ side_lines old ls
side_lines new (l ∷ ls) = new_of l ++ side_lines new ls

-- The loop of `extractFile`: each hunk begins where the one before ended.
unfoldable pub extract_from : Side → ℕ → List Hunk → Result (List TextLine)
extract_from side cursor [] = ok []
extract_from side cursor (h ∷ hs) = elim (range_index (side_start side h) (side_count side h)) [
  | none ↦ err incomplete
  | some index ↦
      if not (index == cursor)
      then err incomplete
      else elim (extract_from side (cursor + side_count side h) hs) [
        | err e ↦ err e
        | ok rest ↦ ok (side_lines side h.lines ++ rest)
      ]
]

-- `extractFile`.
unfoldable pub extract_file : Text → Side → Result Text
extract_file patch side =
    let one_sided =
      has_line_starting (text "new file mode ") patch
      || has_line_starting (text "deleted file mode ") patch in
    if is_null_side patch side then ok [] else elim (parse_hunks one_sided patch) [
      | err e ↦ err e
      | ok hunks ↦ elim (extract_from side 0 hunks) [
        | err e ↦ err e
        | ok lines ↦ ok (join_text lines)
      ]
    ]
