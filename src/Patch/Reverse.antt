-- ===== src/Patch/Reverse.antt =====
-- patch.ts: `reversePatch`.
use reins.Base.{
  ℕ, suc, ◌-◌, Bool, true, false, not, ◌&&◌, ◌||◌, Option, none, some, List, [], ◌∷◌, ◌++◌, Text,
  text_eq, ltb, if◌then◌else◌, length, get_elem?, take, drop,
}
use reins.Patch.Lines.{TextLine, split_text, join_text}
use reins.Patch.Hunks.{
  PatchLine, Hunk, bad_range, bad_content, Result, ok, err, is_addition, is_deletion, parse_hunks,
  range_index,
}

abbrev pub bool_eq : Bool → Bool → Bool
bool_eq true b = b
bool_eq false b = not b

-- The line of the old file that a patch line is, if it is one.
abbrev pub old_of : PatchLine → List TextLine
old_of l = if is_addition l.kind then [] else record { text = l.text; newline = l.old_newline } ∷ []

abbrev pub new_of : PatchLine → List TextLine
new_of l = if is_deletion l.kind then [] else record { text = l.text; newline = l.new_newline } ∷ []

-- The check of a context or an addition line against the new file.
unfoldable pub matches : Option TextLine → PatchLine → Bool
matches none l = false
matches (some actual) l = text_eq actual.text l.text && bool_eq actual.newline l.new_newline

-- The inner loop of `reversePatch`: the cursor behind the hunk, and the old lines of the hunk.
unfoldable pub reverse_hunk : List TextLine → ℕ → List PatchLine → Result (ℕ × List TextLine)
reverse_hunk lines cursor [] = ok (cursor, [])
reverse_hunk lines cursor (l ∷ ls) =
    let next = if is_deletion l.kind then cursor else suc cursor in
    let rest = reverse_hunk lines next ls in
    if not (is_deletion l.kind) && not (matches (get_elem? lines cursor) l)
    then err bad_content
    else elim rest [ err e ↦ err e | ok (final, old) ↦ ok (final, old_of l ++ old) ]

-- The outer loop, from `cursor`.
unfoldable pub reverse_from : List TextLine → ℕ → List Hunk → Result (List TextLine)
reverse_from lines cursor [] = ok (drop cursor lines)
reverse_from lines cursor (h ∷ hs) = elim (range_index h.new_start h.new_count) [
  | none ↦ err bad_range
  | some start ↦
      if ltb start cursor || ltb (length lines) start
      then err bad_range
      else elim (reverse_hunk lines start h.lines) [
        | err e ↦ err e
        | ok (next, old) ↦ elim (reverse_from lines next hs) [
          | err e ↦ err e
          | ok rest ↦ ok (take (start - cursor) (drop cursor lines) ++ (old ++ rest))
        ]
      ]
]

-- `reversePatch`: an `err` is what it throws.
unfoldable pub reverse_patch : Text → Text → Result Text
reverse_patch patch t = elim (parse_hunks false patch) [
  | err e ↦ err e
  | ok hunks ↦ elim (reverse_from (split_text t) 0 hunks) [
    | err e ↦ err e
    | ok old ↦ ok (join_text old)
  ]
]
