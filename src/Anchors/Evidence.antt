-- ===== src/Anchors/Evidence.antt =====
-- review-diff-anchor.ts and code-review.ts: what an anchor holds, and whether a review takes it.
use reins.Base.{
  ℕ, zero, suc, ◌+◌, ◌-◌, ◌≤◌, ◌<◌, ◌≡◌, refl, sym, ap, ◌∙◌, subst, true, false, ◌||◌, none, some,
  Option-cases, inl, inr, ◌⊎◌, List, [], ◌∷◌, any, Text, text, length, ltb, ◌==◌, if◌then◌else◌,
  if_ind, arith,
}
use reins.Diff.Numbering.{DiffFile, parse_patch}
use reins.Review.Model
use reins.Review.Model.{Anchor}
use reins.Review.Operations.{anchor_error, is_break}
use reins.Anchors.Select.{
  Selection, Problem, invalid_range, file_not_found, line_not_available, Result, ok, err,
  NumberedLine, diff_lines, pieces_from, first_of, find_file_patch, find_line, select, anchor_in,
  in_file, review_anchor_from_patch,
}
use reins.Diff.Unified.{ParsedFile}
use reins.Anchors.Sides.{
  lines_on, has_line, IsLine, find_line-IsLine, find_line-none, number_file-lines,
}
use reins.Anchors.Files.{HasNoFile, HasFile, find_file_patch-HasNoFile, find_file_patch-HasFile}
use reins.Anchors.Pieces.{IsPatch, find_piece-IsPatch, pieces_from-IsPatch}

-- The lines are the first ones with the numbers from `line` on.
abbrev pub AreFrom : List NumberedLine → ℕ → List Model.DiffLine → Type 0
AreFrom available line [] = Unit
AreFrom available line (l ∷ ls) =
    ((found : NumberedLine) × IsLine line found available
      × (l ≡ record { kind = found.kind; text = found.text }))
    × AreFrom available (suc line) ls

Result-cases : {A : Type 0} (r : Result A) → ((p : Problem) × (r ≡ err p)) ⊎ ((a : A) × (r ≡ ok a))
Result-cases (err p) = inl (p, refl)
Result-cases (ok a) = inr (a, refl)

of_both :
    (available : List NumberedLine) (s : Selection) (line n : ℕ) (found : NumberedLine)
    (later lines : List Model.DiffLine)
    → find_line line available ≡ some found
    → select available s (suc line) n ≡ ok later
    → select available s line (suc n) ≡ ok lines
    → record { kind = found.kind; text = found.text } ∷ later ≡ lines
unfolding select
of_both available s line n found later lines q r h = ground (arith, q, r, h)

select-AreFrom :
    (available : List NumberedLine) (s : Selection) (line n : ℕ) (lines : List Model.DiffLine)
    → select available s line n ≡ ok lines
    → (length lines ≡ n) × AreFrom available line lines
unfolding select
select-AreFrom available s line zero [] h = (refl, tt)
select-AreFrom available s line zero (l ∷ lines) h = absurd (ground (arith, h))
select-AreFrom available s line (suc n) lines h = elim (Option-cases (find_line line available)) [
  | inl q ↦ absurd (ground (arith, q, h))
  | inr (found, q) ↦ elim (Result-cases (select available s (suc line) n)) [
    | inl (p, r) ↦ absurd (ground (arith, q, r, h))
    | inr (later, r) ↦
        subst (λ ls. (length ls ≡ suc n) × AreFrom available line ls)
          (of_both available s line n found later lines q r h)
          (
            ap suc (select-AreFrom available s (suc line) n later r).0,
            (
              (found, find_line-IsLine line found available q, refl),
              (select-AreFrom available s (suc line) n later r).1,
            ),
          )
  ]
]

-- A missing line of the selection.
record Missing (available : List NumberedLine) (s : Selection) (line n : ℕ) (p : Problem)
    : Type 0 where
  at : ℕ
  begins : line ≤ at
  ends : at < line + n
  missing : find_line at available ≡ none
  says : p ≡ line_not_available at s.side s.path

select-Missing :
    (available : List NumberedLine) (s : Selection) (line n : ℕ) (p : Problem)
    → select available s line n ≡ err p
    → Missing available s line n p
unfolding select
select-Missing available s line zero p h = absurd (ground (arith, h))
select-Missing available s line (suc n) p h = elim (Option-cases (find_line line available)) [
  | inl q ↦ record {
    at = line;
    begins = omega arith;
    ends = omega arith;
    missing = q;
    says = ground (arith, q, h);
  }
  | inr (found, q) ↦ elim (Result-cases (select available s (suc line) n)) [
    | inr (later, r) ↦ absurd (ground (arith, q, r, h))
    | inl (e, r) ↦
        let x : Missing available s (suc line) n p =
          select-Missing available s (suc line) n p (ground (arith, q, r, h)) in
        record {
          at = x.at;
          begins = omega (arith, x.begins);
          ends = omega (arith, x.ends);
          missing = x.missing;
          says = x.says;
        }
  ]
]

-- The anchor is of the first file of the path in the patch, with that file's patch, and has the lines of
-- its side with the selected numbers, all of them and in order.
-- A review takes it, unless a line has a line break in it.
pub record IsEvidence (patch : Text) (s : Selection) (anchor : Anchor) : Type 0 where
  pub file : ParsedFile
  pub of_file : HasFile patch s.path anchor.file_patch file
  pub path_of : anchor.path ≡ s.path
  pub length_of : length anchor.lines + s.start_line ≡ suc s.end_line
  pub lines_from : AreFrom (lines_on s.side file.hunks) s.start_line anchor.lines
  pub error_of : anchor_error anchor ≡ (
      if any (λ l. any is_break l.text) anchor.lines
      then some (text "Review annotation diff line text is invalid")
      else none)

-- What comes of a selection.
pub data Outcome (patch : Text) (s : Selection) : Result Anchor → Type 0 where
  bad_range :
      (ltb s.start_line 1 || ltb s.end_line s.start_line) ≡ true
      → Outcome patch s (err invalid_range)
  no_file : HasNoFile patch s.path → Outcome patch s (err (file_not_found s.path))
  no_line :
      (p : Text) (file : ParsedFile) (line : ℕ)
      → HasFile patch s.path p file
      → s.start_line ≤ line
      → line ≤ s.end_line
      → has_line line (lines_on s.side file.hunks) ≡ false
      → Outcome patch s (err (line_not_available line s.side s.path))
  anchored : (anchor : Anchor) → IsEvidence patch s anchor → Outcome patch s (ok anchor)

-- A review refuses an anchor of a patch for its line breaks only.
anchor_error-breaks :
    (anchor : Anchor)
    → (ltb anchor.start_line 1 || length anchor.lines == 0) ≡ false
    → IsPatch anchor.file_patch
    → anchor_error anchor ≡ (
        if any (λ l. any is_break l.text) anchor.lines
        then some (text "Review annotation diff line text is invalid")
        else none)
unfolding anchor_error
anchor_error-breaks anchor h k = rw (h, k) refl

anchored_lem :
    (sha256 : Text → Text) (patch : Text) (s : Selection) (p : Text) (diff : DiffFile)
    (lines : List Model.DiffLine)
    → (ltb s.start_line 1 || ltb s.end_line s.start_line) ≡ false
    → find_file_patch patch s.path ≡ some (p, diff)
    → select (diff_lines s.side diff.hunks) s s.start_line (suc s.end_line - s.start_line)
      ≡ ok lines
    → Outcome patch s (anchor_in sha256 s p diff (ok lines))
unfolding find_file_patch
anchored_lem sha256 patch s p diff lines r f h =
    let a : (length lines ≡ suc s.end_line - s.start_line)
        × AreFrom (diff_lines s.side diff.hunks) s.start_line lines =
      select-AreFrom (diff_lines s.side diff.hunks) s s.start_line (suc s.end_line - s.start_line)
        lines h in
    let b : IsPatch p × (first_of (parse_patch p) ≡ some diff) × (diff.path ≡ s.path) =
      find_piece-IsPatch s.path (pieces_from true patch).1 p diff (pieces_from-IsPatch true patch)
        f in
    let (file, x, e) = find_file_patch-HasFile patch s.path p diff f in
    let on : diff_lines s.side diff.hunks ≡ lines_on s.side file.hunks =
      ap (λ d. diff_lines s.side d.hunks) e ∙ number_file-lines s.side file in
    let n : length lines + s.start_line ≡ suc s.end_line = ground (arith, r, a.0) in
    anchored _ (record {
      file = file;
      of_file = x;
      path_of = b.2;
      length_of = n;
      lines_from = subst (λ t. AreFrom t s.start_line lines) on a.1;
      error_of = anchor_error-breaks _ (ground (arith, r, n)) b.0;
    })

in_file-Outcome :
    (sha256 : Text → Text) (patch : Text) (s : Selection) (p : Text) (diff : DiffFile)
    → (ltb s.start_line 1 || ltb s.end_line s.start_line) ≡ false
    → find_file_patch patch s.path ≡ some (p, diff)
    → Outcome patch s (in_file sha256 s (some (p, diff)))
in_file-Outcome sha256 patch s p diff r f =
    elim (Result-cases
      (select (diff_lines s.side diff.hunks) s s.start_line (suc s.end_line - s.start_line))) [
        | inr (lines, h) ↦
            subst (λ x. Outcome patch s (anchor_in sha256 s p diff x)) (sym h)
              (anchored_lem sha256 patch s p diff lines r f h)
        | inl (e, h) ↦
            let (file, its, of) = find_file_patch-HasFile patch s.path p diff f in
            let on : diff_lines s.side diff.hunks ≡ lines_on s.side file.hunks =
              ap (λ d. diff_lines s.side d.hunks) of ∙ number_file-lines s.side file in
            let x : Missing (diff_lines s.side diff.hunks) s s.start_line
                (suc s.end_line - s.start_line) e =
              select-Missing (diff_lines s.side diff.hunks) s s.start_line
                (suc s.end_line - s.start_line) e h in
            subst (λ y. Outcome patch s (anchor_in sha256 s p diff y)) (sym (h ∙ ap err x.says))
              (no_line p file x.at its x.begins (omega (arith, x.begins, x.ends)) (
                find_line-none x.at (lines_on s.side file.hunks)
                  (ap (find_line x.at) (sym on) ∙ x.missing)))
      ]

-- Of every patch and selection: the range is refused when it is empty or begins before the first line, a
-- file when the patch has none of that path, a line when the file's side has none of that number; and
-- else there is an anchor with the selected lines, which a review takes unless one has a line break in it.
-- The patch is cut where a line begins with `diff --git `, a file is the first one that the diff parser
-- reads from its piece, and a side's lines are counted in each hunk from the start in its header.
pub review_anchor_from_patch-Outcome :
    (sha256 : Text → Text) (patch : Text) (s : Selection)
    → Outcome patch s (review_anchor_from_patch sha256 patch s)
unfolding review_anchor_from_patch
review_anchor_from_patch-Outcome sha256 patch s =
    if_ind {A = Result Anchor} (Outcome patch s) (ltb s.start_line 1 || ltb s.end_line s.start_line)
      (λ yes. bad_range yes)
      (λ no. elim (Option-cases (find_file_patch patch s.path)) [
        | inl q ↦
            subst (λ o. Outcome patch s (in_file sha256 s o)) (sym q)
              (no_file (find_file_patch-HasNoFile patch s.path q))
        | inr ((p, diff), q) ↦
            subst (λ o. Outcome patch s (in_file sha256 s o)) (sym q)
              (in_file-Outcome sha256 patch s p diff no q)
      ])
