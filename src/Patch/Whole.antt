-- ===== src/Patch/Whole.antt =====
-- patch.ts: `extractFile` and `reversePatch` on a patch that holds both files whole.
use reins.Base.{
  ℕ, ◌+◌, ◌≡◌, refl, sym, ap, ◌∙◌, Bool, true, false, not, none, some, List, [], ◌∷◌, ◌++◌, Text,
  ◌==◌, ==→eq, length, count, any, arith, Option-cases, Bool-cases, inl, inr, subst,
}
use reins.Patch.Lines.{TextLine, join_text, IsFile}
use reins.Patch.Hunks.{
  PatchLine, Hunk, ok, is_deletion, has_counts, check_hunks, read_hunks, physical_from, parse_hunks,
  range_index, Result-cases,
}
use reins.Patch.Reverse.{reverse_patch}
use reins.Patch.Describes.{old_side, new_side, Describes, reverse_patch-Describes}
use reins.Patch.Extract.{
  Side, old, new, is_null_side, side_lines, side_start, side_count, extract_from, extract_file,
}

side_lines-old : (ls : List PatchLine) → side_lines old ls ≡ old_side ls
unfolding side_lines old_side
side_lines-old [] = refl
side_lines-old (l ∷ ls) = ground (arith, side_lines-old ls)

side_lines-new : (ls : List PatchLine) → side_lines new ls ≡ new_side ls
unfolding side_lines new_side
side_lines-new [] = refl
side_lines-new (l ∷ ls) = ground (arith, side_lines-new ls)

length-new_side :
    (ls : List PatchLine) → length (new_side ls) ≡ count (λ l. not (is_deletion l.kind)) ls
unfolding new_side
length-new_side [] = refl
length-new_side (l ∷ ls) = ground (arith, length-new_side ls)

counted : (h : Hunk) → has_counts h ≡ true → length (new_side h.lines) ≡ h.new_count
unfolding has_counts
counted h e = ground (arith, length-new_side h.lines, e)

-- The lines of a side over all hunks.
unfoldable pub whole : Side → List Hunk → List TextLine
whole side [] = []
whole side (h ∷ hs) = side_lines side h.lines ++ whole side hs

-- What `extractFile` checks of one hunk, and what it goes on with.
extract_from-next :
    (side : Side) (cursor : ℕ) (h : Hunk) (hs : List Hunk) (ls : List TextLine)
    → extract_from side cursor (h ∷ hs) ≡ ok ls
    → (range_index (side_start side h) (side_count side h) ≡ some cursor)
      × (rest : List TextLine) × (extract_from side (cursor + side_count side h) hs ≡ ok rest)
      × (ls ≡ side_lines side h.lines ++ rest)
unfolding extract_from
extract_from-next side cursor h hs ls e =
    elim (Option-cases (range_index (side_start side h) (side_count side h))) [
      | inl f ↦ absurd (ground (arith, e, f))
      | inr (index, f) ↦ elim (Bool-cases (index == cursor)) [
        | inr g ↦ absurd (ground (arith, e, f, g))
        | inl g ↦ elim (Result-cases (extract_from side (cursor + side_count side h) hs)) [
          | inl (x, k) ↦ absurd (ground (arith, e, f, g, k))
          | inr (rest, k) ↦
              (f ∙ ap some (==→eq index cursor g), rest, k, ground (arith, e, f, g, k))
        ]
      ]
    ]

extract_from-whole :
    (side : Side) (cursor : ℕ) (hs : List Hunk) (ls : List TextLine)
    → extract_from side cursor hs ≡ ok ls
    → ls ≡ whole side hs
unfolding whole
extract_from-whole side cursor [] ls e = unfold extract_from in ground (arith, e)
extract_from-whole side cursor (h ∷ hs) ls e =
    let (at, rest, k, f) = extract_from-next side cursor h hs ls e in
    f
    ∙ ap (◌++◌ (side_lines side h.lines))
        (extract_from-whole side (cursor + side_count side h) hs rest k)

whole-Describes :
    (cursor : ℕ) (hs : List Hunk) (news : List TextLine)
    → any (λ h. not (has_counts h)) hs ≡ false
    → extract_from new cursor hs ≡ ok news
    → Describes cursor hs (whole old hs) (whole new hs)
unfolding whole
whole-Describes cursor [] news c e = refl
whole-Describes cursor (h ∷ hs) news c e =
    let (at, rest, k, f) = extract_from-next new cursor h hs news e in
    let size = counted h (ground (arith, c)) in
    (
      [],
      whole old hs,
      whole new hs,
      at ∙ ap some (ground arith),
      ap (λ ls. ls ++ whole old hs) (side_lines-old h.lines),
      ap (λ ls. ls ++ whole new hs) (side_lines-new h.lines),
      subst (λ n. Describes n hs (whole old hs) (whole new hs)) (ground (arith, size))
          (whole-Describes (cursor + h.new_count) hs rest (ground (arith, c)) k),
    )

parse_hunks-counted :
    (b : Bool) (patch : Text) (hs : List Hunk)
    → parse_hunks b patch ≡ ok hs
    → any (λ h. not (has_counts h)) hs ≡ false
unfolding parse_hunks check_hunks
parse_hunks-counted b patch hs e =
    elim (Result-cases (read_hunks [] none (physical_from [] patch))) [
      | inl (x, f) ↦ absurd (ground (arith, e, f))
      | inr (found, f) ↦ elim (Bool-cases (any (λ h. not (has_counts h)) found)) [
        | inl g ↦ absurd (ground (arith, e, f, g))
        | inr g ↦ ground (arith, e, f, g)
      ]
    ]

extracted :
    (patch t : Text) (side : Side) (hunks : List Hunk)
    → is_null_side patch old ≡ false
    → is_null_side patch new ≡ false
    → parse_hunks false patch ≡ ok hunks
    → extract_file patch side ≡ ok t
    → (ls : List TextLine) × (extract_from side 0 hunks ≡ ok ls) × (t ≡ join_text ls)
unfolding extract_file is_null_side
extracted patch t old hunks a b f e = elim (Result-cases (extract_from old 0 hunks)) [
  | inl (x, k) ↦ absurd (ground (arith, a, b, f, e, k))
  | inr (ls, k) ↦ (ls, k, ground (arith, a, b, f, e, k))
]
extracted patch t new hunks a b f e = elim (Result-cases (extract_from new 0 hunks)) [
  | inl (x, k) ↦ absurd (ground (arith, a, b, f, e, k))
  | inr (ls, k) ↦ (ls, k, ground (arith, a, b, f, e, k))
]

-- Of a patch that neither adds nor deletes its file and holds both sides whole, `reversePatch` turns
-- the extracted new file into the extracted old file, if the new side is one that a file can have.
pub reverse_patch-extract_file :
    (patch before after : Text) (hunks : List Hunk)
    → is_null_side patch old ≡ false
    → is_null_side patch new ≡ false
    → parse_hunks false patch ≡ ok hunks
    → extract_file patch old ≡ ok before
    → extract_file patch new ≡ ok after
    → IsFile (whole new hunks)
    → reverse_patch patch after ≡ ok before
reverse_patch-extract_file patch before after hunks a b f eo en w =
    let (olds, ko, jo) = extracted patch before old hunks a b f eo in
    let (news, kn, jn) = extracted patch after new hunks a b f en in
    ap (reverse_patch patch) (jn ∙ ap join_text (extract_from-whole new 0 hunks news kn))
    ∙ reverse_patch-Describes patch hunks (whole old hunks) (whole new hunks) f w
        (whole-Describes 0 hunks news (parse_hunks-counted false patch hunks f) kn)
    ∙ ap ok (sym (jo ∙ ap join_text (extract_from-whole old 0 hunks olds ko)))
