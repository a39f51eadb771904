-- ===== src/Shell/Scan.antt =====
-- bash-command-parser.ts: what the scan has read is what its parts hold.
use reins.Base.{
  ℕ, ◌≡◌, refl, sym, ap, ◌∙◌, false, List, [], ◌∷◌, ◌++◌, Text, arith, ◌==◌, if_ind, append_assoc,
  append-nil,
}
use reins.Shell.Split.{
  Part, State, plain, operator, flushed, backslash, flush, push_current, push_operator, single,
  is_pair, scan, split_on_operators,
}

-- The text of parts in order.
abbrev pub joined : List Part → Text
joined [] = []
joined (p ∷ ps) = p.text ++ joined ps

joined-append : (ps qs : List Part) → joined (ps ++ qs) ≡ joined ps ++ joined qs
joined-append [] qs = refl
joined-append (p ∷ ps) qs =
    ap (◌++◌ p.text) (joined-append ps qs) ∙ sym (append_assoc p.text (joined ps) (joined qs))

-- All that a state of the scan has read.
abbrev consumed : State → Text
consumed s = joined s.parts ++ s.current

joined-flushed : (ps : List Part) (t : Text) → joined (flushed ps t) ≡ joined ps ++ t
joined-flushed ps [] = sym (append-nil (joined ps))
joined-flushed ps (c ∷ cs) =
    joined-append ps (plain (c ∷ cs) ∷ []) ∙ ap (◌++◌ (joined ps)) (append-nil (c ∷ cs))

consumed-flush : (s : State) → consumed (flush s) ≡ consumed s
unfolding flush
consumed-flush s = append-nil _ ∙ joined-flushed s.parts s.current

consumed-push_current : (s : State) (t : Text) → consumed (push_current s t) ≡ consumed s ++ t
consumed-push_current s t = sym (append_assoc (joined s.parts) s.current t)

consumed-push_operator : (s : State) (t : Text) → consumed (push_operator s t) ≡ consumed s ++ t
unfolding flush
consumed-push_operator s t =
    append-nil _
    ∙ joined-append (flushed s.parts s.current) (operator t ∷ [])
    ∙ ap (λ x. x ++ (t ++ [])) (joined-flushed s.parts s.current)
    ∙ ap (◌++◌ (consumed s)) (append-nil t)

consumed-single : (s : State) (ch : ℕ) → consumed (single s ch) ≡ consumed s ++ ch ∷ []
unfolding single
consumed-single s ch =
    ground (arith, consumed-push_current s (ch ∷ []), consumed-push_operator s (ch ∷ []))

consumed-scan : (s : State) (input : Text) → consumed (scan s input) ≡ consumed s ++ input
unfolding scan
consumed-scan s [] = sym (append-nil (consumed s))
consumed-scan s (ch ∷ []) = consumed-single s ch
consumed-scan s (ch ∷ next ∷ rest) =
    let from = λ (t : State). consumed t ≡ consumed s ++ ch ∷ next ∷ rest in
    if_ind from (ch == backslash)
      (λ _.
        consumed-scan (push_current s (ch ∷ next ∷ [])) rest
        ∙ ap (λ x. x ++ rest) (consumed-push_current s (ch ∷ next ∷ []))
        ∙ append_assoc (consumed s) (ch ∷ next ∷ []) rest)
      (λ _.
        if_ind from (is_pair s ch next)
          (λ _.
            consumed-scan (push_operator s (ch ∷ next ∷ [])) rest
            ∙ ap (λ x. x ++ rest) (consumed-push_operator s (ch ∷ next ∷ []))
            ∙ append_assoc (consumed s) (ch ∷ next ∷ []) rest)
          (λ _.
            consumed-scan (single s ch) (next ∷ rest)
            ∙ ap (λ x. x ++ next ∷ rest) (consumed-single s ch)
            ∙ append_assoc (consumed s) (ch ∷ []) (next ∷ rest)))

pub joined-split : (input : Text) → joined (split_on_operators input) ≡ input
unfolding split_on_operators
joined-split input =
    let s : State = record { parts = []; current = []; in_single = false; in_double = false } in
    sym (append-nil _) ∙ unfold flush in consumed-flush (scan s input) ∙ consumed-scan s input
