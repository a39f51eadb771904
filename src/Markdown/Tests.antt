-- ===== src/Markdown/Tests.antt =====
-- streaming-markdown.ts: paragraphs, a fence, a list and a line that cannot be split off.
use reins.Base.{◌≡◌, refl, true, false, [], ◌∷◌, Text, text}
use reins.Markdown.Lines.{is_html_block_start}
use reins.Markdown.Scan.{read_line, scan_lines, scan_settled_markdown}
use reins.Markdown.Segments.{reset, settle, render, render_all}
use reins.Markdown.Growing.{IsFaithful, render_all-reset}

run_scan : Unit {0}
unfolding read_line scan_lines scan_settled_markdown reset settle render render_all
run_scan = tt

abbrev fenced : Text
fenced = text "A\n\n```js\n\nx\n```\n\nB"

settles_paragraphs :
    scan_settled_markdown (text "One.\n\nTwo") 0 ≡ record { boundary = 6; splittable = true }
unfolding read_line scan_lines scan_settled_markdown
settles_paragraphs = refl

settles_fence : scan_settled_markdown fenced 0 ≡ record { boundary = 17; splittable = true }
unfolding read_line scan_lines scan_settled_markdown
settles_fence = refl

-- A line that ends with a carriage return opens no fence, so a boundary falls within the code.
splits_in_fence :
    scan_settled_markdown (text "```js\r\nx\r\n\r\ny\r\n```\r\n") 0
    ≡ record { boundary = 12; splittable = true }
unfolding read_line scan_lines scan_settled_markdown
splits_in_fence = refl

keeps_list :
    scan_settled_markdown (text "> - a\n\n  b\n\n") 0 ≡ record { boundary = 0; splittable = true }
unfolding read_line scan_lines scan_settled_markdown
keeps_list = refl

unsplittable_definition : (scan_settled_markdown (text "A\n\n [a]: b") 0).splittable ≡ false
unfolding read_line scan_lines scan_settled_markdown
unsplittable_definition = refl

autolink : is_html_block_start (text "<https://a>") ≡ false
autolink = refl

abbrev as_it_is : Text → Text
as_it_is t = t

shows_parts :
    (render_all as_it_is reset (text "One.\n" ∷ text "One.\n\nTw" ∷ []) (text "One.\n\nTwo\n\n3")).1
    ≡ record { settled = text "One.\n\n" ∷ text "Two\n\n" ∷ []; tail = text "3" }
unfolding read_line scan_lines scan_settled_markdown reset settle render render_all
shows_parts = refl

render_all-reset_example :
    IsFaithful as_it_is
      (text "One.\n" ∷ text "One.\n\nTwo\n\n3" ∷ [])
      (text "One.\n\nTwo\n\n3")
      (render_all as_it_is reset (text "One.\n" ∷ []) (text "One.\n\nTwo\n\n3")).1
render_all-reset_example = render_all-reset as_it_is (text "One.\n" ∷ []) (text "One.\n\nTwo\n\n3")
