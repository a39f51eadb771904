-- ===== src/Shell/Operators.antt =====
-- bash-command-parser.ts: what is shown as an operator.
use reins.Base.{
  ℕ, ◌<◌, ◌≡◌, ◌≢◌, ◌⊎◌, true, false, List, [], ◌∷◌, Text, text, arith, ◌==◌, if_ind, length, any,
  span, All, All-append,
}
use reins.Shell.Split.{
  Part, State, plain, operator, flushed, backslash, flush, push_current, push_operator, single,
  is_pair, scan, split_on_operators,
}
use reins.Shell.Command.{is_space, is_word, extract_command}
use reins.Shell.Faithful.{ellipsis_length}
use reins.Shell.Segments.{
  Kind, Segment, pushed, fragment, segments_of, segments, parse_command_segments,
}

-- What an operator segment may say.
abbrev pub IsOperator : Text → Type 0
IsOperator t = (t ≡ text "&&") ⊎ (t ≡ text "||") ⊎ (t ≡ text "|") ⊎ (t ≡ text ";")

abbrev pub IsGoodPart : Part → Type 0
IsGoodPart p = (p.is_operator ≡ true → IsOperator p.text) × (0 < length p.text)

abbrev pub IsGood : Segment → Type 0
IsGood s = (s.kind ≡ Kind.operator → IsOperator s.text) × (0 < length s.text)

All-flushed : (ps : List Part) (t : Text) → All IsGoodPart ps → All IsGoodPart (flushed ps t)
All-flushed ps [] h = h
All-flushed ps (c ∷ cs) h =
    All-append IsGoodPart ps (plain (c ∷ cs) ∷ []) h ((λ bad. cc, omega arith), tt)

push_operator-good :
    (s : State) (t : Text)
    → IsOperator t
    → 0 < length t
    → All IsGoodPart s.parts
    → All IsGoodPart (push_operator s t).parts
unfolding flush
push_operator-good s t o l h =
    All-append IsGoodPart (flushed s.parts s.current) (operator t ∷ [])
      (All-flushed s.parts s.current h) ((λ _. o, l), tt)

single-good : (s : State) (ch : ℕ) → All IsGoodPart s.parts → All IsGoodPart (single s ch).parts
unfolding single
single-good s ch h =
    ground (arith, push_operator-good s (text "|"), push_operator-good s (text ";"))

pair-IsOperator : (s : State) (ch next : ℕ) → is_pair s ch next ≡ true → IsOperator (ch ∷ next ∷ [])
unfolding is_pair
pair-IsOperator s ch next h = ground arith

scan-good :
    (s : State) (input : Text) → All IsGoodPart s.parts → All IsGoodPart (scan s input).parts
unfolding scan
scan-good s [] h = h
scan-good s (ch ∷ []) h = single-good s ch h
scan-good s (ch ∷ next ∷ rest) h =
    let good = λ (t : State). All IsGoodPart t.parts in
    if_ind good (ch == backslash) (λ _. scan-good (push_current s (ch ∷ next ∷ [])) rest h)
      (λ _.
        if_ind good (is_pair s ch next)
          (λ pair. scan-good (push_operator s (ch ∷ next ∷ [])) rest (
            push_operator-good s (ch ∷ next ∷ []) (pair-IsOperator s ch next pair) (omega arith) h))
          (λ _. scan-good (single s ch) (next ∷ rest) (single-good s ch h)))

split-good : (input : Text) → All IsGoodPart (split_on_operators input)
unfolding split_on_operators flush
split-good input =
    let s : State = record { parts = []; current = []; in_single = false; in_double = false } in
    All-flushed (scan s input).parts (scan s input).current (scan-good s input tt)

All-pushed : (k : Kind) (t : Text) → k ≢ Kind.operator → All IsGood (pushed k t)
All-pushed k [] h = tt
All-pushed k (c ∷ cs) h = ((λ e. absurd (h e), omega arith), tt)

fragment-IsGood : (t : Text) → All IsGood (fragment t)
unfolding fragment
fragment-IsGood t =
    let (leading, trimmed) = span is_space t in
    let found = extract_command trimmed in
    All-append IsGood (pushed Kind.args leading) _ (All-pushed Kind.args leading (cc)) (
      All-append IsGood (pushed Kind.args found.prefix) _ (All-pushed Kind.args found.prefix (cc)) (
        All-append IsGood (pushed Kind.command found.cmd) _ (All-pushed Kind.command found.cmd (cc))
          (All-pushed Kind.args found.rest (cc))))

segments-IsGood : (ps : List Part) → All IsGoodPart ps → All IsGood (segments ps)
unfolding segments segments_of
segments-IsGood [] h = tt
segments-IsGood (p ∷ ps) h =
    All-append IsGood (segments_of p) (segments ps)
      (if_ind (λ (ss : List Segment). All IsGood ss) p.is_operator
        (λ o. ((λ _. h.0.0 o, h.0.1), tt)) (λ _. fragment-IsGood p.text))
      (segments-IsGood ps h.1)

-- Of every command line, no segment is empty, and a segment that is shown as an operator is one of
-- the four: `&&`, `||`, `|` or `;`.
pub parse_command_segments-IsGood : (input : Text) → All IsGood (parse_command_segments input)
unfolding parse_command_segments
parse_command_segments-IsGood input =
    if_ind (λ (ss : List Segment). All IsGood ss) (any is_word input)
      (λ _. segments-IsGood (split_on_operators input) (split-good input))
      (λ _. ((λ bad. cc, ellipsis_length input), tt))
