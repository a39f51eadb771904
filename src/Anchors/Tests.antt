-- ===== src/Anchors/Tests.antt =====
-- review-diff-anchor.ts: a renamed file, and a file whose lines end with a carriage return.
use reins.Base.{map, ◌≡◌, refl, Option, none, some, List, [], ◌∷◌, ◌++◌, Text, text}
use reins.Diff.Unified.{
  split_lines, behind_b, git_path, find_header, all_files, new_file, new_hunk, hunk_line, read_line,
  read_lines, start, parse_unified_diff,
}
use reins.Diff.Numbering.{number_lines, number_hunk, number_file, parse_patch}
use reins.Patch.Hunks.{read_number, read_count, expect, read_header}
use reins.Review.Model.{new, Anchor}
use reins.Review.Operations.{anchor_error}
use reins.Anchors.Select.{
  Selection, Result, ok, err, line_not_available, diff_lines, pieces_from, find_piece,
  find_file_patch, lines_of, behind, old_path, find_line, select, review_anchor_from_patch,
}
use reins.Anchors.Evidence.{Outcome, review_anchor_from_patch-Outcome}

run_anchors : Unit {0}
unfolding diff_lines pieces_from find_piece find_file_patch lines_of behind old_path find_line
    select review_anchor_from_patch split_lines behind_b git_path find_header all_files new_file
    new_hunk hunk_line read_line read_lines start parse_unified_diff number_lines number_hunk
    number_file parse_patch read_header expect read_number read_count anchor_error
run_anchors = tt

abbrev same : Text → Text
same t = t

abbrev patch : Text
patch =
    text "x\ndiff --git a/f b/f\n@@ -1 +1 @@\n-a\n+b\n"
    ++ text "diff --git a/o b/g\nrename from o\n@@ -3,2 +3,2 @@\n c\n-d\n+e\n"

abbrev selection : Selection
selection = record { path = text "g"; side = new; start_line = 3; end_line = 4 }

abbrev texts : Result Anchor → List Text
texts (err p) = []
texts (ok a) = map (λ l. l.text) a.lines

abbrev refusal : Result Anchor → Option Text
refusal (err p) = none
refusal (ok a) = anchor_error a

selects_two : texts (review_anchor_from_patch same patch selection) ≡ text "c" ∷ text "e" ∷ []
unfolding run_anchors
selects_two = refl

selects_missing :
    review_anchor_from_patch same patch (record selection { end_line = 5 })
    ≡ err (line_not_available 5 new (text "g"))
unfolding run_anchors
selects_missing = refl

old_name : old_path (text "diff --git a/o b/g\r\nrename from o\r\n") (text "g") ≡ some (text "o")
unfolding lines_of behind old_path
old_name = refl

-- A review refuses every comment on a line that ends with a carriage return.
carriage_refused :
    refusal (
      review_anchor_from_patch same
        (text "diff --git a/f b/f\n@@ -1 +1 @@\n-a\r\n+b\r\n")
        (record { path = text "f"; side = new; start_line = 1; end_line = 1 }))
    ≡ some (text "Review annotation diff line text is invalid")
unfolding run_anchors
carriage_refused = refl

review_anchor_from_patch-Outcome_example :
    Outcome patch selection (review_anchor_from_patch same patch selection)
review_anchor_from_patch-Outcome_example = review_anchor_from_patch-Outcome same patch selection
