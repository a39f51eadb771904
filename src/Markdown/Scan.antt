-- ===== src/Markdown/Scan.antt =====
-- streaming-markdown.ts: `scanSettledMarkdown`.
use reins.Base.{
  ℕ, suc, Bool, true, false, not, ◌&&◌, ◌||◌, Option, none, some, [], ◌∷◌, ◌++◌, Text, text,
  starts_with, length, drop, ◌==◌, if◌then◌else◌,
}
use reins.Markdown.Lines.{
  Fence, trim_start, leading_whitespace, includes, open_fence, closes_fence,
  is_reference_definition, is_html_block_start, without_quotes, is_list_marker,
}

-- `SettledMarkdownScan`.
pub record Scanned : Type 0 where
  pub boundary : ℕ
  pub splittable : Bool

-- The variables of the loop, the position left out.
pub record Scanner : Type 0 where
  pub boundary : ℕ
  pub fence : Option Fence
  pub in_math : Bool
  pub block_has_content : Bool
  pub block_unsafe : Bool

abbrev pub fresh : ℕ → Scanner
fresh from = record {
  boundary = from;
  fence = none;
  in_math = false;
  block_has_content = false;
  block_unsafe = false;
}

abbrev pub crosses_blocks : Text → Bool
crosses_blocks line = is_reference_definition line || is_html_block_start (trim_start line)

-- A line with text, outside a fence and math.
abbrev pub content_line : Scanner → Text → Scanner
content_line s line =
    let trimmed = trim_start line in
    let unsafe =
      s.block_unsafe
      || (not s.block_has_content && not (leading_whitespace line == 0))
      || is_list_marker (without_quotes false trimmed) in
    let inside = record s { block_has_content = true; block_unsafe = unsafe } in
    elim (open_fence line) [
      | some fence ↦ record inside { fence = some fence }
      | none ↦ record inside {
        in_math = starts_with trimmed (text "$$") && not (includes (drop 2 trimmed) (text "$$"));
      }
    ]

abbrev pub blank_line : Scanner → ℕ → Scanner
blank_line s position = record s {
  boundary = if s.block_has_content && not s.block_unsafe then position else s.boundary;
  block_has_content = false;
  block_unsafe = false;
}

-- The body of the loop on a line that ends before `position`; `none` when it returns.
unfoldable pub read_line : Scanner → Text → ℕ → Option Scanner
read_line s line position = elim s.fence [
  | some fence ↦ some (if closes_fence line fence then record s { fence = none } else s)
  | none ↦
      if s.in_math
      then some (if includes line (text "$$") then record s { in_math = false } else s)
      else if length (trim_start line) == 0
      then some (blank_line s position)
      else if crosses_blocks line
      then none
      else some (content_line s line)
]

abbrev pub outside : Scanner → Bool
outside s = elim s.fence [ none ↦ not s.in_math | some fence ↦ false ]

-- The loop: `part` is the line so far, and `position` is behind it.
unfoldable pub scan_lines : ℕ → Scanner → ℕ → Text → Text → Scanned
scan_lines from s position part [] =
    if outside s && crosses_blocks part
    then record { boundary = from; splittable = false }
    else record { boundary = s.boundary; splittable = true }
scan_lines from s position part (c ∷ t) =
    let ended : Scanned = elim (read_line s part (suc position)) [
      | none ↦ record { boundary = from; splittable = false }
      | some next ↦ scan_lines from next (suc position) [] t
    ] in
    let longer = scan_lines from s (suc position) (part ++ c ∷ []) t in
    if c == 10 then ended else longer

unfoldable pub scan_settled_markdown : Text → ℕ → Scanned
scan_settled_markdown t from = scan_lines from (fresh from) from [] (drop from t)
