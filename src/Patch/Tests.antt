-- ===== src/Patch/Tests.antt =====
-- patch.ts: a patch that changes the second of three lines.
use reins.Base.{◌≡◌, refl, Bool, true, false, List, [], ◌∷◌, ◌++◌, Text, text, arith}
use reins.Patch.Lines.{TextLine, split_text, join_text, split_from, IsFile}
use reins.Patch.Hunks.{
  physical_from, read_number, read_count, expect, read_header, mark_last, marker, read_line,
  read_hunks, has_counts, check_hunks, parse_hunks, ok, err, bad_content, bad_counts, addition,
  deletion, Hunk,
}
use reins.Patch.Extract.{old, new, any_line, is_null_side, side_lines, extract_from, extract_file}
use reins.Patch.Whole.{whole, reverse_patch-extract_file}
use reins.Patch.Hunks.{context}
use reins.Patch.Carriage.{physical_from-carriage}
use reins.Patch.Reverse.{matches, reverse_hunk, reverse_from, reverse_patch}
use reins.Patch.Describes.{
  Describes, old_side, new_side, reverse_patch-Describes, Describes-reverse_patch,
}

run_patch : Unit {0}
unfolding split_text join_text split_from physical_from read_number read_count expect read_header
    mark_last read_line read_hunks has_counts check_hunks parse_hunks matches reverse_hunk
    reverse_from reverse_patch old_side new_side
run_patch = tt

abbrev line : Text → Bool → TextLine
line t newline = record { text = t; newline = newline }

abbrev lf : Text
lf = 10 ∷ []

abbrev new_text : Text
new_text = text "a" ++ lf ++ text "B" ++ lf ++ text "c"

abbrev old_text : Text
old_text = text "a" ++ lf ++ text "b" ++ lf ++ text "c"

abbrev sample : Text
sample = text "--- a/f" ++ lf ++ text "@@ -2 +2 @@ f" ++ lf ++ text "-b" ++ lf ++ text "+B" ++ lf

reverse_sample : reverse_patch sample new_text ≡ ok old_text
unfolding run_patch
reverse_sample = refl

reverse_stale : reverse_patch sample old_text ≡ err bad_content
unfolding run_patch
reverse_stale = refl

marked :
    reverse_patch
      (text "@@ -1 +1 @@" ++ lf ++ text "-b" ++ lf ++ text "+c" ++ lf ++ marker)
      (text "c")
    ≡ ok (text "b" ++ lf)
unfolding run_patch
marked = refl

-- A patch of a file whose lines end in CR LF: the counts of its only hunk come out wrong.
abbrev carriage : Text
carriage = text "@@ -1 +1 @@" ++ lf ++ text "-b" ++ 13 ∷ lf ++ text "+B" ++ 13 ∷ lf

carriage_refused : reverse_patch carriage (text "B" ++ 13 ∷ lf) ≡ err bad_counts
unfolding run_patch
carriage_refused = refl

abbrev new_lines : List TextLine
new_lines = line (text "a") true ∷ line (text "B") true ∷ line (text "c") false ∷ []

abbrev old_lines : List TextLine
old_lines = line (text "a") true ∷ line (text "b") true ∷ line (text "c") false ∷ []

new_lines-IsFile : IsFile new_lines
new_lines-IsFile =
    ((ground arith, tt), refl, ((ground arith, tt), refl, ((ground arith, tt), λ _. ground arith)))

abbrev hunks : List Hunk
hunks =
    record {
      old_start = 2;
      old_count = 1;
      new_start = 2;
      new_count = 1;
      lines =
          record { kind = deletion; text = text "b"; old_newline = true; new_newline = true }
          ∷ record { kind = addition; text = text "B"; old_newline = true; new_newline = true }
          ∷ [];
    }
    ∷ []

sample-hunks : parse_hunks false sample ≡ ok hunks
unfolding run_patch
sample-hunks = refl

sample-Describes : Describes 0 hunks old_lines new_lines
unfolding run_patch
sample-Describes = (
  line (text "a") true ∷ [],
  line (text "c") false ∷ [],
  line (text "c") false ∷ [],
  refl,
  refl,
  refl,
  refl,
)

reverse_patch-Describes_example :
    reverse_patch sample (join_text new_lines) ≡ ok (join_text old_lines)
reverse_patch-Describes_example =
    reverse_patch-Describes sample hunks old_lines new_lines sample-hunks new_lines-IsFile
      sample-Describes

Describes-reverse_patch_example :
    (found : List Hunk) × (old : List TextLine) × (parse_hunks false sample ≡ ok found)
    × (old_text ≡ join_text old)
    × Describes 0 found old (split_text new_text)
Describes-reverse_patch_example = Describes-reverse_patch sample new_text old_text reverse_sample

physical_from-carriage_example :
    physical_from [] (text "-b" ++ 13 ∷ 10 ∷ text "+c") ≡ [] ∷ physical_from [] (text "+c")
physical_from-carriage_example =
    physical_from-carriage [] (text "-b") (text "+c") (ground arith, (ground arith, tt))

run_extract : Unit {0}
unfolding run_patch any_line is_null_side side_lines extract_from extract_file whole
run_extract = tt

abbrev whole_patch : Text
whole_patch = text "@@ -1,2 +1,2 @@" ++ lf ++ text " a" ++ lf ++ text "-b" ++ lf ++ text "+B" ++ lf

abbrev whole_hunks : List Hunk
whole_hunks =
    record {
      old_start = 1;
      old_count = 2;
      new_start = 1;
      new_count = 2;
      lines =
          record { kind = context; text = text "a"; old_newline = true; new_newline = true }
          ∷ record { kind = deletion; text = text "b"; old_newline = true; new_newline = true }
          ∷ record { kind = addition; text = text "B"; old_newline = true; new_newline = true }
          ∷ [];
    }
    ∷ []

whole_read : parse_hunks false whole_patch ≡ ok whole_hunks
unfolding run_extract
whole_read = refl

whole_sided : (is_null_side whole_patch old ≡ false) × (is_null_side whole_patch new ≡ false)
unfolding run_extract
whole_sided = (refl, refl)

whole_extracted :
    (extract_file whole_patch old ≡ ok (text "a" ++ lf ++ text "b" ++ lf))
    × (extract_file whole_patch new ≡ ok (text "a" ++ lf ++ text "B" ++ lf))
unfolding run_extract
whole_extracted = (refl, refl)

whole-IsFile : IsFile (whole new whole_hunks)
unfolding run_extract
whole-IsFile = ((ground arith, tt), refl, ((ground arith, tt), λ e. ground (arith, e)))

reverse_patch-extract_file_example :
    reverse_patch whole_patch (text "a" ++ lf ++ text "B" ++ lf)
    ≡ ok (text "a" ++ lf ++ text "b" ++ lf)
reverse_patch-extract_file_example =
    reverse_patch-extract_file whole_patch (text "a" ++ lf ++ text "b" ++ lf)
      (text "a" ++ lf ++ text "B" ++ lf) whole_hunks whole_sided.0 whole_sided.1 whole_read
      whole_extracted.0 whole_extracted.1 whole-IsFile
