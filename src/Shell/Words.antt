-- ===== src/Shell/Words.antt =====
-- bash-command-parser.ts: the matches of `extractCommand` and its loops.
use reins.Base.{
  ℕ, zero, suc, ◌<◌, ◌≡◌, inl, inr, refl, ap, ◌∙◌, Option, some, [], ◌∷◌, ◌++◌, Text, text_eq,
  Bool-cases, arith, ◌==◌, length, any, span, span-append, append_assoc, Option-cases,
}
use reins.Shell.Command.{
  is_space, is_word, is_name, is_name_start, prefix_words, with_white, before_space, assignment,
  env_match, prefix_match, skip, extract_command,
}

-- The words of a fragment.
with_white-text :
    (front white back matched behind : Text)
    → with_white front white back ≡ some (matched, behind)
    → matched ++ behind ≡ front ++ (white ++ back)
unfolding with_white
with_white-text front [] back matched behind h = cc
with_white-text front (w ∷ ws) back matched behind h =
    ground (arith, append_assoc front (w ∷ ws) back)

before_space-text :
    (front rest matched behind : Text)
    → before_space front rest ≡ some (matched, behind)
    → matched ++ behind ≡ front ++ rest
unfolding before_space
before_space-text front rest matched behind h =
    with_white-text front (span is_space rest).0 (span is_space rest).1 matched behind h
    ∙ ap (◌++◌ front) (span-append is_space rest)

-- A match and the text behind it are the text.
abbrev Splits : (Text → Option (Text × Text)) → Type 0
Splits match = (t matched behind : Text) → match t ≡ some (matched, behind) → matched ++ behind ≡ t

prefix_match-Splits : Splits prefix_match
unfolding prefix_match
prefix_match-Splits t matched behind h =
    elim (Bool-cases (any (text_eq (span is_word t).0) prefix_words)) [
      | inl listed ↦
          before_space-text (span is_word t).0 (span is_word t).1 matched behind (ground arith)
          ∙ span-append is_word t
      | inr other ↦ absurd (ground arith)
    ]

assignment-text :
    (name rest matched behind : Text)
    → assignment name rest ≡ some (matched, behind)
    → matched ++ behind ≡ name ++ rest
unfolding assignment
assignment-text name [] matched behind h = cc
assignment-text name (c ∷ rest) matched behind h = elim (Bool-cases (c == b'=')) [
  | inl equals ↦
      before_space-text (name ++ c ∷ (span is_word rest).0) (span is_word rest).1 matched behind
        (ground arith)
      ∙ append_assoc name (c ∷ (span is_word rest).0) (span is_word rest).1
      ∙ ap (λ t. name ++ c ∷ t) (span-append is_word rest)
  | inr other ↦ absurd (ground arith)
]

env_match-Splits : Splits env_match
unfolding env_match
env_match-Splits [] matched behind h = cc
env_match-Splits (c ∷ rest) matched behind h = elim (Bool-cases (is_name_start c)) [
  | inl letter ↦
      assignment-text (c ∷ (span is_name rest).0) (span is_name rest).1 matched behind
        (ground arith)
      ∙ ap (◌∷◌ c) (span-append is_name rest)
  | inr other ↦ absurd (ground arith)
]

skip-text :
    (match : Text → Option (Text × Text)) (fuel : ℕ) (prefix remaining : Text)
    → Splits match
    → (skip match fuel prefix remaining).0 ++ (skip match fuel prefix remaining).1
      ≡ prefix ++ remaining
unfolding skip
skip-text match zero prefix remaining h = refl
skip-text match (suc fuel) prefix remaining h = elim (Option-cases (match remaining)) [
  | inl e ↦ rw (e, skip)
  | inr ((matched, behind), e) ↦
      rw (e, skip)
        (skip-text match fuel (prefix ++ matched) behind h
          ∙ append_assoc prefix matched behind
          ∙ ap (◌++◌ prefix) (h remaining matched behind e))
]

pub extract_command-text :
    (input : Text)
    → let found = extract_command input in found.prefix ++ (found.cmd ++ found.rest) ≡ input
unfolding extract_command
extract_command-text input =
    let first = skip env_match (length input) [] input in
    let second = skip prefix_match (length first.1) first.0 first.1 in
    ap (◌++◌ second.0) (span-append is_word second.1)
    ∙ skip-text prefix_match (length first.1) first.0 first.1 prefix_match-Splits
    ∙ skip-text env_match (length input) [] input env_match-Splits

-- A match takes something off the text.
abbrev Shrinks : (Text → Option (Text × Text)) → Type 0
Shrinks match = (t matched behind : Text) → match t ≡ some (matched, behind) → 0 < length matched
