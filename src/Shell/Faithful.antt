-- ===== src/Shell/Faithful.antt =====
-- bash-command-parser.ts: the segments are the command line again.
use reins.Base.{
  ◌<◌, ◌≡◌, ◌≢◌, refl, sym, ap, ◌∙◌, List, [], ◌∷◌, ◌++◌, Text, arith, if_ind, length, any, span,
  span-append, append_assoc, append-nil,
}
use reins.Shell.Split.{Part, split_on_operators}
use reins.Shell.Command.{is_space, is_word, extract_command}
use reins.Shell.Segments.{
  Kind, Segment, or_ellipsis, pushed, fragment, segments_of, segments, parse_command_segments,
}
use reins.Shell.Scan.{joined, joined-split}
use reins.Shell.Words.{extract_command-text}

-- The text of segments in order.
abbrev pub segments_text : List Segment → Text
segments_text [] = []
segments_text (s ∷ ss) = s.text ++ segments_text ss

segments_text-append :
    (ss ts : List Segment) → segments_text (ss ++ ts) ≡ segments_text ss ++ segments_text ts
segments_text-append [] ts = refl
segments_text-append (s ∷ ss) ts =
    ap (◌++◌ s.text) (segments_text-append ss ts)
    ∙ sym (append_assoc s.text (segments_text ss) (segments_text ts))

segments_text-pushed : (k : Kind) (t : Text) → segments_text (pushed k t) ≡ t
segments_text-pushed k [] = refl
segments_text-pushed k (c ∷ cs) = append-nil (c ∷ cs)

segments_text-fragment : (t : Text) → segments_text (fragment t) ≡ t
unfolding fragment
segments_text-fragment t =
    let trimmed = (span is_space t).1 in
    let found = extract_command trimmed in
    simp (segments_text-append, segments_text-pushed)
      (ap (◌++◌ (span is_space t).0) (extract_command-text trimmed) ∙ span-append is_space t)

segments_text-segments : (ps : List Part) → segments_text (segments ps) ≡ joined ps
unfolding segments segments_of
segments_text-segments [] = refl
segments_text-segments (p ∷ ps) =
    segments_text-append (segments_of p) (segments ps)
    ∙ ap (◌++◌ (segments_text (segments_of p))) (segments_text-segments ps)
    ∙ ap (λ t. t ++ joined ps)
        (if_ind (λ (ss : List Segment). segments_text ss ≡ p.text) p.is_operator
          (λ _. append-nil p.text) (λ _. segments_text-fragment p.text))

ellipsis_of_nonempty : (t : Text) → t ≢ [] → or_ellipsis t ≡ t
ellipsis_of_nonempty [] h = absurd (h refl)
ellipsis_of_nonempty (c ∷ cs) h = refl

pub ellipsis_length : (t : Text) → 0 < length (or_ellipsis t)
ellipsis_length [] = omega arith
ellipsis_length (c ∷ cs) = omega arith

-- The texts of the segments of a non-empty command line, in order, are the command line.
pub parse_command_segments-text :
    (input : Text) → input ≢ [] → segments_text (parse_command_segments input) ≡ input
unfolding parse_command_segments
parse_command_segments-text input h =
    if_ind (λ (ss : List Segment). segments_text ss ≡ input) (any is_word input)
      (λ _. segments_text-segments (split_on_operators input) ∙ joined-split input)
      (λ _. append-nil _ ∙ ellipsis_of_nonempty input h)
