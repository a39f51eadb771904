-- ===== src/Patch/Lines.antt =====
-- patch.ts: `splitText` and `joinText`.
use reins.Base.{
  ℕ, ◌≡◌, ◌≢◌, refl, sym, ap, ◌∙◌, Bool, true, false, List, [], ◌∷◌, ◌++◌, Text, arith, ◌==◌,
  if◌then◌else◌, All, append_assoc, append-nil, Bool-cases, inl, inr, if_ind,
}

pub record TextLine : Type 0 where
  pub text : Text
  pub newline : Bool

abbrev pub ended : Text → TextLine
ended t = record { text = t; newline = true }

-- What follows the last newline, if there is anything.
abbrev pub last_line : Text → List TextLine
last_line [] = []
last_line (c ∷ cs) = record { text = c ∷ cs; newline = false } ∷ []

-- The loop of `splitText`: `line` is the text from `start` to `index`.
unfoldable pub split_from : Text → Text → List TextLine
split_from line [] = last_line line
split_from line (c ∷ cs) =
    let closed = ended line ∷ split_from [] cs in
    let longer = split_from (line ++ c ∷ []) cs in if c == 10 then closed else longer

unfoldable pub split_text : Text → List TextLine
split_text t = split_from [] t

abbrev pub line_end : Bool → Text
line_end true = 10 ∷ []
line_end false = []

unfoldable pub join_text : List TextLine → Text
join_text [] = []
join_text (l ∷ ls) = (l.text ++ line_end l.newline) ++ join_text ls

join-split_from : (line t : Text) → join_text (split_from line t) ≡ line ++ t
unfolding split_from join_text
join-split_from [] [] = refl
join-split_from (c ∷ cs) [] = append-nil ((c ∷ cs) ++ [])
join-split_from line (c ∷ cs) =
    if_ind (λ (ls : List TextLine). join_text ls ≡ line ++ c ∷ cs) (c == 10)
      (λ e.
        ap (λ t. (line ++ 10 ∷ []) ++ t) (join-split_from [] cs)
        ∙ append_assoc line (10 ∷ []) cs
        ∙ ap (λ (k : ℕ). line ++ k ∷ cs) (ground arith))
      (λ _. join-split_from (line ++ c ∷ []) cs ∙ append_assoc line (c ∷ []) cs)

-- Splitting a text into lines and joining them gives the text.
pub join_text-split_text : (t : Text) → join_text (split_text t) ≡ t
unfolding split_text
join_text-split_text t = join-split_from [] t

abbrev pub HasNoNewline : Text → Type 0
HasNoNewline = All (λ c. c ≢ 10)

-- Lines of a file: no newline inside one, and only the last, which is not empty, may lack its own.
abbrev pub IsFile : List TextLine → Type 0
IsFile [] = Unit
IsFile (l ∷ []) = HasNoNewline l.text × (l.newline ≡ false → l.text ≢ [])
IsFile (l ∷ m ∷ ls) = HasNoNewline l.text × (l.newline ≡ true) × IsFile (m ∷ ls)

split_from-line :
    (line t rest : Text)
    → HasNoNewline t
    → split_from line (t ++ 10 ∷ rest) ≡ ended (line ++ t) ∷ split_from [] rest
unfolding split_from
split_from-line line [] rest h = ap (λ t. ended t ∷ split_from [] rest) (sym (append-nil line))
split_from-line line (c ∷ t) rest h =
    ground (arith, split_from-line (line ++ c ∷ []) t rest, append_assoc line (c ∷ []) t)

split_from-last : (line t : Text) → HasNoNewline t → split_from line t ≡ last_line (line ++ t)
unfolding split_from
split_from-last line [] h = ap last_line (sym (append-nil line))
split_from-last line (c ∷ t) h =
    ground (arith, split_from-last (line ++ c ∷ []) t, append_assoc line (c ∷ []) t)

last_line_of : (l : TextLine) → l.newline ≡ false → l.text ≢ [] → last_line l.text ≡ l ∷ []
last_line_of l e h = nonempty l.text l.newline e h
  where
    nonempty :
        (t : Text) (b : Bool)
        → b ≡ false
        → t ≢ []
        → last_line t ≡ record { text = t; newline = b } ∷ []
    nonempty [] b e h = absurd (h refl)
    nonempty (c ∷ cs) b e h = ground arith

ended_of : (l : TextLine) → l.newline ≡ true → ended l.text ≡ l
ended_of l e = ground arith

split-ended_line :
    (l : TextLine) (rest : Text)
    → HasNoNewline l.text
    → l.newline ≡ true
    → split_from [] ((l.text ++ line_end l.newline) ++ rest) ≡ l ∷ split_from [] rest
split-ended_line l rest h e =
    ap (λ b. split_from [] ((l.text ++ line_end b) ++ rest)) e
    ∙ ap (split_from []) (append_assoc l.text (10 ∷ []) rest)
    ∙ split_from-line [] l.text rest h
    ∙ ap (λ k. k ∷ split_from [] rest) (ended_of l e)

-- Joining the lines of a file and splitting the text gives the lines.
pub split_text-join_text : (ls : List TextLine) → IsFile ls → split_text (join_text ls) ≡ ls
unfolding split_text join_text
split_text-join_text [] h = unfold split_from in refl
split_text-join_text (l ∷ []) h = elim (Bool-cases l.newline) [
  | inl e ↦ split-ended_line l [] h.0 e ∙ ap (◌∷◌ l) (unfold split_from in refl)
  | inr e ↦
      ap (λ b. split_from [] ((l.text ++ line_end b) ++ [])) e
      ∙ ap (split_from []) (append-nil (l.text ++ []) ∙ append-nil l.text)
      ∙ split_from-last [] l.text h.0
      ∙ last_line_of l e (h.1 e)
]
split_text-join_text (l ∷ m ∷ ls) h =
    split-ended_line l (join_text (m ∷ ls)) h.0 h.1 ∙ ap (◌∷◌ l) (split_text-join_text (m ∷ ls) h.2)
