-- ===== src/Patch/Describes.antt =====
-- patch.ts: what a patch says of two files, and `reversePatch` against it.
use reins.Base.{
  ℕ, suc, ◌+◌, ◌-◌, ◌≤◌, ◌≡◌, refl, sym, ap, ◌∙◌, true, false, ◌||◌, Option, none, some, List, [],
  ◌∷◌, ◌++◌, Text, ltb, length, get_elem?, take, drop, length-take, Option-cases, take-append-drop,
  subst, length-append, length-drop, drop-drop, drop-append_length, take-append_length, arith,
  Bool-cases, inl, inr, text_eq→eq, text_eq_refl, get_elem?-of_drop, drop-of_get_elem?,
}
use reins.Patch.Lines.{TextLine, split_text, join_text, IsFile, split_text-join_text}
use reins.Patch.Hunks.{PatchLine, Hunk, ok, is_deletion, Result-cases, parse_hunks, range_index}
use reins.Patch.Reverse.{old_of, new_of, reverse_hunk, reverse_from, reverse_patch, matches}

-- The lines of a hunk that stand in the old file, and those that stand in the new one.
unfoldable pub old_side : List PatchLine → List TextLine
old_side [] = []
old_side (l ∷ ls) = old_of l ++ old_side ls

unfoldable pub new_side : List PatchLine → List TextLine
new_side [] = []
new_side (l ∷ ls) = new_of l ++ new_side ls

-- From line `cursor` of the new file, the hunks turn `old` into `new`: the files are the same up to
-- the place that the header of a hunk names, there they hold the two sides of the hunk, and so on.
abbrev pub Describes : ℕ → List Hunk → List TextLine → List TextLine → Type 0
Describes cursor [] old new = old ≡ new
Describes cursor (h ∷ hs) old new =
    (gap : List TextLine) × (old_rest : List TextLine) × (new_rest : List TextLine) × (range_index
        h.new_start h.new_count
      ≡ some (cursor + length gap))
    × (old ≡ gap ++ (old_side h.lines ++ old_rest))
    × (new ≡ gap ++ (new_side h.lines ++ new_rest))
    × Describes (cursor + length gap + length (new_side h.lines)) hs old_rest new_rest

matches_new :
    (l : PatchLine) → matches (some (record { text = l.text; newline = l.new_newline })) l ≡ true
unfolding matches
matches_new l = ground (arith, text_eq_refl l.text)

matches→eq :
    (o : Option TextLine) (l : PatchLine)
    → matches o l ≡ true
    → o ≡ some (record { text = l.text; newline = l.new_newline })
unfolding matches
matches→eq none l e = absurd (ground arith)
matches→eq (some actual) l e = ground (arith, text_eq→eq actual.text l.text)

reverse_hunk_done :
    (all : List TextLine) (cursor : ℕ) (ls : List PatchLine) (rest : List TextLine)
    → drop cursor all ≡ new_side ls ++ rest
    → (reverse_hunk all cursor ls ≡ ok (cursor + length (new_side ls), old_side ls))
      × (drop (cursor + length (new_side ls)) all ≡ rest)
unfolding reverse_hunk old_side new_side
reverse_hunk_done all cursor [] rest e = ground arith
reverse_hunk_done all cursor (l ∷ ls) rest e = elim (Bool-cases (is_deletion l.kind)) [
  | inl d ↦ ground (arith, reverse_hunk_done all cursor ls rest)
  | inr d ↦ ground (
    arith,
    reverse_hunk_done all (suc cursor) ls rest,
    matches_new l,
    get_elem?-of_drop cursor all (record { text = l.text; newline = l.new_newline })
        (new_side ls ++ rest),
  )
]

reverse_hunk_sound :
    (all : List TextLine) (cursor : ℕ) (ls : List PatchLine) (next : ℕ) (old : List TextLine)
    → reverse_hunk all cursor ls ≡ ok (next, old)
    → (next ≡ cursor + length (new_side ls))
      × (old ≡ old_side ls)
      × (drop cursor all ≡ new_side ls ++ drop next all)
unfolding reverse_hunk old_side new_side
reverse_hunk_sound all cursor [] next old e = ground arith
reverse_hunk_sound all cursor (l ∷ ls) next old e = elim (Bool-cases (is_deletion l.kind)) [
  | inl d ↦ elim (Result-cases (reverse_hunk all cursor ls)) [
    | inl (x, f) ↦ absurd (ground arith)
    | inr (r, f) ↦ ground (arith, reverse_hunk_sound all cursor ls r.0 r.1)
  ]
  | inr d ↦ elim (Result-cases (reverse_hunk all (suc cursor) ls)) [
    | inl (x, f) ↦ absurd (ground arith)
    | inr (r, f) ↦ elim (Bool-cases (matches (get_elem? all cursor) l)) [
      | inr m ↦ absurd (ground arith)
      | inl m ↦ ground (
        arith,
        reverse_hunk_sound all (suc cursor) ls r.0 r.1,
        drop-of_get_elem? cursor all (record { text = l.text; newline = l.new_newline }),
        matches→eq (get_elem? all cursor) l,
      )
    ]
  ]
]

-- Where the cursor stands behind a stretch of lines that it has in front of it.
pass_over :
    (all : List TextLine) (cursor : ℕ) (gap rest : List TextLine)
    → cursor ≤ length all
    → drop cursor all ≡ gap ++ rest
    → (drop (cursor + length gap) all ≡ rest)
      × (cursor + length gap ≤ length all)
      × (take (cursor + length gap - cursor) (drop cursor all) ≡ gap)
pass_over all cursor gap rest le e = (
  sym (drop-drop cursor (length gap) all) ∙ ap (drop (length gap)) e ∙ drop-append_length gap rest,
  omega (arith, length-append gap rest, length-drop cursor all, ap length e),
  ap (λ n. take n (drop cursor all)) (add_sub cursor (length gap))
      ∙ ap (take (length gap)) e
      ∙ take-append_length gap rest,
)
  where
    add_sub : (m n : ℕ) → m + n - m ≡ n
    add_sub m n = omega arith

-- If the hunks turn `old` into `new`, undoing them on the new file gives the old one.
reverse_from_done :
    (all : List TextLine) (cursor : ℕ) (hs : List Hunk) (old new : List TextLine)
    → drop cursor all ≡ new
    → cursor ≤ length all
    → Describes cursor hs old new
    → reverse_from all cursor hs ≡ ok old
unfolding reverse_from
reverse_from_done all cursor [] old new e le d = ground arith
reverse_from_done all cursor (h ∷ hs) old new e le (gap, old_rest, new_rest, at, olds, news, d) =
    let over = pass_over all cursor gap (new_side h.lines ++ new_rest) le (e ∙ news) in
    let hunk = reverse_hunk_done all (cursor + length gap) h.lines new_rest over.0 in
    let behind = pass_over all (cursor + length gap) (new_side h.lines) new_rest over.1 over.0 in
    let rest =
      reverse_from_done all (cursor + length gap + length (new_side h.lines)) hs old_rest new_rest
        behind.0 behind.1 d in
    ground (arith, at, olds, over, hunk, rest)

-- The gap in front of a hunk, when its header names a place between the cursor and the end.
gap_before :
    (all : List TextLine) (cursor start : ℕ)
    → (ltb start cursor || ltb (length all) start) ≡ false
    → (start ≡ cursor + length (take (start - cursor) (drop cursor all)))
      × (drop cursor all ≡ take (start - cursor) (drop cursor all) ++ drop start all)
gap_before all cursor start e = (
  ground (arith, length-take (start - cursor) (drop cursor all), length-drop cursor all),
  sym (take-append-drop (start - cursor) (drop cursor all))
      ∙ ap (λ rest. take (start - cursor) (drop cursor all) ++ rest)
          (drop-drop cursor (start - cursor) all ∙ ap (λ n. drop n all) (ground arith)),
)

reverse_from_sound :
    (all : List TextLine) (cursor : ℕ) (hs : List Hunk) (old : List TextLine)
    → reverse_from all cursor hs ≡ ok old
    → Describes cursor hs old (drop cursor all)
unfolding reverse_from
reverse_from_sound all cursor [] old e = ground arith
reverse_from_sound all cursor (h ∷ hs) old e =
    elim (Option-cases (range_index h.new_start h.new_count)) [
      | inl f ↦ absurd (ground arith)
      | inr (start, f) ↦ elim (Bool-cases (ltb start cursor || ltb (length all) start)) [
        | inl g ↦ absurd (ground (arith, f, g, e))
        | inr g ↦ elim (Result-cases (reverse_hunk all start h.lines)) [
          | inl (x, k) ↦ absurd (ground (arith, f, g, k, e))
          | inr (r, k) ↦ elim (Result-cases (reverse_from all r.0 hs)) [
            | inl (x, l) ↦ absurd (ground (arith, f, g, k, l, e))
            | inr (rest, l) ↦
                let gap = gap_before all cursor start g in
                let hunk = reverse_hunk_sound all start h.lines r.0 r.1 k in
                (
                  take (start - cursor) (drop cursor all),
                  rest,
                  drop r.0 all,
                  f ∙ ap some gap.0,
                  ground (arith, f, g, k, l, e, hunk.1),
                  gap.1 ∙ ap (◌++◌ (take (start - cursor) (drop cursor all))) hunk.2,
                  subst (λ n. Describes n hs rest (drop r.0 all))
                      (hunk.0 ∙ ap (λ n. n + length (new_side h.lines)) gap.0)
                      (reverse_from_sound all r.0 hs rest l),
                )
          ]
        ]
      ]
    ]

-- When the patch text reads as hunks that turn one file into another, `reversePatch` gives the text
-- of the first for the text of the second.
pub reverse_patch-Describes :
    (patch : Text) (hunks : List Hunk) (old new : List TextLine)
    → parse_hunks false patch ≡ ok hunks
    → IsFile new
    → Describes 0 hunks old new
    → reverse_patch patch (join_text new) ≡ ok (join_text old)
unfolding reverse_patch
reverse_patch-Describes patch hunks old new e f d = ground (
  arith,
  e,
  split_text-join_text new f,
  reverse_from_done new 0 hunks old new refl (omega arith) d,
)

-- When `reversePatch` gives a text, the patch reads as hunks, and they turn the lines that the text
-- is made of into the lines of the text it was given: a stale file is never taken.
pub Describes-reverse_patch :
    (patch t result : Text)
    → reverse_patch patch t ≡ ok result
    → (hunks : List Hunk) × (old : List TextLine) × (parse_hunks false patch ≡ ok hunks)
      × (result ≡ join_text old)
      × Describes 0 hunks old (split_text t)
unfolding reverse_patch
Describes-reverse_patch patch t result e = elim (Result-cases (parse_hunks false patch)) [
  | inl (x, f) ↦ absurd (ground arith)
  | inr (hunks, f) ↦ elim (Result-cases (reverse_from (split_text t) 0 hunks)) [
    | inl (x, g) ↦ absurd (ground arith)
    | inr (old, g) ↦ (hunks, old, f, ground arith, reverse_from_sound (split_text t) 0 hunks old g)
  ]
]
