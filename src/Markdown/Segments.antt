-- ===== src/Markdown/Segments.antt =====
-- markdown-content.ts: `StreamingMarkdownSegments`. The parser of Markdown is outside and a parameter;
-- measurements are left out.
use reins.Base.{
  ◌-◌, Bool, true, false, List, [], ◌∷◌, ◌++◌, Text, starts_with, length, drop, take, ltb,
  if◌then◌else◌,
}
use reins.Markdown.Scan.{scan_settled_markdown}

pub record Segments (H : Type 0) : Type 0 where
  pub settled_text : Text
  pub settled_html : List H
  pub splittable : Bool

-- `StreamingMarkdownParts`.
pub record Parts (H : Type 0) : Type 0 where
  pub settled : List H
  pub tail : H

unfoldable pub reset : {H : Type 0} → Segments H
reset = record { settled_text = []; settled_html = []; splittable = true }

module _ {H : Type 0} (parse_markdown : Text → H) where
  -- The `if (this.splittable)` of `render`.
  unfoldable pub settle : Segments H → Text → Segments H
  settle s t =
      let n = length s.settled_text in
      let scan = scan_settled_markdown t n in
      if s.splittable
      then if scan.splittable
        then if ltb n scan.boundary
          then record s {
            settled_html =
                s.settled_html ++ parse_markdown (take (scan.boundary - n) (drop n t)) ∷ [];
            settled_text = take scan.boundary t;
          }
          else s
        else record { settled_text = []; settled_html = []; splittable = false }
      else s

  -- `render`.
  unfoldable pub render : Segments H → Text → Segments H × Parts H
  render s t =
      let next = settle (if starts_with t s.settled_text then s else reset) t in
      (
        next,
        record {
          settled = next.settled_html;
          tail = parse_markdown (drop (length next.settled_text) t);
        },
      )

  -- The renderings of one element, the last one being of `t`.
  unfoldable pub render_all : Segments H → List Text → Text → Segments H × Parts H
  render_all s [] t = render s t
  render_all s (u ∷ us) t = render_all (render s u).0 us t
