-- ===== src/Shell/Split.antt =====
-- bash-command-parser.ts: `splitOnOperators`. The loop runs over what is left of the input; the two
-- code units that a backslash or an operator takes are matched together.
use reins.Base.{
  ℕ, Bool, true, false, not, ◌&&◌, ◌||◌, List, [], ◌∷◌, ◌++◌, Text, ◌==◌, if◌then◌else◌,
}

pub record Part : Type 0 where
  pub text : Text
  pub is_operator : Bool

pub record State : Type 0 where
  pub parts : List Part
  pub current : Text
  pub in_single : Bool
  pub in_double : Bool

abbrev pub plain : Text → Part
plain t = record { text = t; is_operator = false }

abbrev pub operator : Text → Part
operator t = record { text = t; is_operator = true }

-- `flush`.
abbrev pub flushed : List Part → Text → List Part
flushed parts [] = parts
flushed parts (c ∷ cs) = parts ++ plain (c ∷ cs) ∷ []

unfoldable pub flush : State → State
flush s = record s { parts = flushed s.parts s.current; current = [] }

abbrev pub push_current : State → Text → State
push_current s t = record s { current = s.current ++ t }

abbrev pub push_operator : State → Text → State
push_operator s t = let f = flush s in record f { parts = f.parts ++ operator t ∷ [] }

abbrev pub backslash : ℕ
backslash = 92

abbrev pub single_quote : ℕ
single_quote = 39

abbrev pub double_quote : ℕ
double_quote = 34

abbrev pub ampersand : ℕ
ampersand = 38

abbrev pub bar : ℕ
bar = 124

abbrev pub semicolon : ℕ
semicolon = 59

-- One code unit that is neither an escape nor the start of an operator of two.
unfoldable pub single : State → ℕ → State
single s ch =
    if ch == single_quote && not s.in_double
    then record (push_current s (ch ∷ [])) { in_single = not s.in_single }
    else if ch == double_quote && not s.in_single
    then record (push_current s (ch ∷ [])) { in_double = not s.in_double }
    else if s.in_single || s.in_double
    then push_current s (ch ∷ [])
    else if ch == bar
    then push_operator s (ch ∷ [])
    else if ch == semicolon
    then push_operator s (ch ∷ [])
    else push_current s (ch ∷ [])

-- Whether the two units are `&&` or `||` outside quotes.
unfoldable pub is_pair : State → ℕ → ℕ → Bool
is_pair s ch next =
    not (s.in_single || s.in_double)
    && ((ch == ampersand && next == ampersand) || (ch == bar && next == bar))

unfoldable pub scan : State → Text → State
scan s [] = s
scan s (ch ∷ []) = single s ch
scan s (ch ∷ next ∷ rest) =
    let escaped = scan (push_current s (ch ∷ next ∷ [])) rest in
    let paired = scan (push_operator s (ch ∷ next ∷ [])) rest in
    let one = scan (single s ch) (next ∷ rest) in
    if ch == backslash then escaped else if is_pair s ch next then paired else one

unfoldable pub split_on_operators : Text → List Part
split_on_operators input =
    (flush (
      scan (record { parts = []; current = []; in_single = false; in_double = false }) input)).parts
