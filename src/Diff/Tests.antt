-- ===== src/Diff/Tests.antt =====
-- diff-parser.ts: a diff of one file with a comment that is lost.
use reins.Base.{map, split_at, ◌≡◌, refl, none, some, List, [], ◌∷◌, ◌++◌, Text, text, All}
use reins.Patch.Hunks.{read_number, read_count, expect, read_header}
use reins.Diff.Unified.{
  plus, minus, ParsedHunk, split_lines, behind_b, git_path, find_header, all_files, new_file,
  new_hunk, hunk_line, read_line, read_lines, start, parse_unified_diff,
}
use reins.Diff.Numbering.{context, remove, number_lines, number_hunk, number_file, parse_patch}
use reins.Diff.Counting.{IsCounted, parse_patch-IsCounted}
use reins.Diff.Numstat.{pos, read_fields, parse_numstat}
use reins.Diff.Numstats.{Entry, print_fields, all_fields, summary_of, parse_numstat-print_fields}
use reins.Diff.Lost.{read_lines-lost}

run_diff : Unit {0}
unfolding read_number read_count expect read_header split_lines behind_b git_path find_header
    all_files new_file new_hunk hunk_line read_line read_lines start parse_unified_diff number_lines
    number_hunk number_file parse_patch read_fields parse_numstat split_at
run_diff = tt

abbrev raw : Text
raw =
    text "diff --git a/f b/f"
    ++ 10 ∷ text "@@ -3,2 +3 @@"
    ++ 10 ∷ text "--- note"
    ++ 10 ∷ text "-x"
    ++ 10 ∷ text " y"

parsed :
    parse_patch raw
    ≡ record {
      path = text "f";
      additions = 0;
      removals = 1;
      hunks =
          record {
            header = text "@@ -3,2 +3 @@";
            lines =
                record { line_type = remove; text = text "x"; old_line = some 3; new_line = none }
                ∷ record {
                  line_type = context;
                  text = text "y";
                  old_line = some 4;
                  new_line = some 3;
                }
                ∷ [];
          }
          ∷ [];
    }
      ∷ []
unfolding run_diff
parsed = refl

parse_patch-IsCounted_example : All IsCounted (parse_patch raw)
parse_patch-IsCounted_example = parse_patch-IsCounted raw

abbrev hunk : ParsedHunk
hunk = record {
  header = text "@@ -3 +5 @@";
  old_start = 3;
  new_start = 5;
  lines =
      record { prefix = minus; text = text "x" } ∷ record { prefix = plus; text = text "y" } ∷ [];
}

abbrev first : List Text
first = text "diff --git a/f b/f" ∷ text "@@ -3,2 +3 @@" ∷ []

read_lines-lost_example :
    (read_lines start (first ++ (text "---" ++ text " note") ∷ []) ≡ read_lines start (first ++ []))
    × (read_lines start (first ++ (text "+++" ++ text " note") ∷ [])
        ≡ read_lines start (first ++ []))
read_lines-lost_example = read_lines-lost first [] start (text " note")

-- A binary file, a rename, and an output that ends in the middle of one.
counted :
    parse_numstat (text "-\t-\tp\0" ++ text "12\t3\t\0o\0n\0" ++ text "1\t0\t\0o")
    ≡ record { path = some (text "p"); old_path = none; additions = pos 0; removals = pos 0 }
      ∷ record {
        path = some (text "n");
        old_path = some (text "o");
        additions = pos 12;
        removals = pos 3;
      }
      ∷ record { path = none; old_path = some (text "o"); additions = pos 1; removals = pos 0 }
      ∷ []
unfolding run_diff
counted = refl

abbrev renamed : List Entry
renamed =
    record { added = some 120; removed = some 7; old_path = some (text "o"); path = text "n" }
    ∷ record { added = none; removed = none; old_path = none; path = text "a\tb" }
    ∷ []

parse_numstat-print_fields_example :
    parse_numstat (print_fields (all_fields renamed)) ≡ map summary_of renamed
parse_numstat-print_fields_example =
    parse_numstat-print_fields renamed (((refl, refl), refl), (((refl, refl), tt), tt))
