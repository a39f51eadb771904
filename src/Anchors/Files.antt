-- ===== src/Anchors/Files.antt =====
-- review-diff-anchor.ts: which file of a patch a path names, apart from the code.
use reins.Base.{
  ◌≡◌, refl, sym, ap, ◌∙◌, subst, true, false, Option, none, some, Option-cases, Bool-cases, inl,
  inr, List, [], ◌∷◌, ◌++◌, All, map, Text, text_eq, text_eq→eq, arith,
}
use reins.Diff.Unified.{ParsedFile, parse_unified_diff}
use reins.Diff.Numbering.{DiffFile, number_file, parse_patch}
use reins.Anchors.Select.{pieces_from, first_of, find_piece, find_file_patch}
use reins.Anchors.Cuts.{IsCut, pieces_from-IsCut}

-- The file of a patch is the first one that the parser reads.
abbrev pub file_of : Text → Option ParsedFile
file_of p = first_of (parse_unified_diff p)

number_file-path : (f : ParsedFile) → (number_file f).path ≡ f.path
unfolding number_file
number_file-path f = refl

some-injective : (a b : ParsedFile) → Path (Option ParsedFile) (some a) (some b) → a ≡ b
some-injective a b h = ap (λ o. elim o [ none ↦ a | some x ↦ x ]) h

first_of-map :
    (p : Text)
    → first_of (parse_patch p) ≡ elim (file_of p) [ none ↦ none | some f ↦ some (number_file f) ]
unfolding parse_patch
first_of-map p = by_files (parse_unified_diff p)
  where
    by_files :
        (fs : List ParsedFile)
        → first_of (map number_file fs) ≡ elim (first_of fs) as (λ _. Option DiffFile) [
          | none ↦ none
          | some f ↦ some (number_file f)
        ]
    by_files [] = refl
    by_files (f ∷ fs) = refl

abbrev IsOther : Text → Text → Type 0
IsOther path p = (f : ParsedFile) → file_of p ≡ some f → text_eq f.path path ≡ false

-- The patch has no file of that path.
abbrev pub HasNoFile : Text → Text → Type 0
HasNoFile patch path =
    (front : Text) × (pieces : List Text) × IsCut patch front pieces × All (IsOther path) pieces

-- The first file of that path in the patch, with its own patch.
pub record HasFile (patch path p : Text) (file : ParsedFile) : Type 0 where
  pub front : Text
  pub before : List Text
  pub behind : List Text
  pub cut : IsCut patch front (before ++ p ∷ behind)
  pub others : All (IsOther path) before
  pub its : file_of p ≡ some file
  pub named : file.path ≡ path

find_piece-none :
    (path : Text) (pieces : List Text) → find_piece path pieces ≡ none → All (IsOther path) pieces
unfolding find_piece
find_piece-none path [] h = tt
find_piece-none path (p ∷ pieces) h = elim (Option-cases (file_of p)) [
  | inl e ↦
      let parsed : first_of (parse_patch p) ≡ none = rw (first_of-map p, e) refl in
      (
        (λ f g. absurd (ground (arith, e, g))),
        find_piece-none path pieces (ground (arith, parsed, h)),
      )
  | inr (d, e) ↦
      let parsed : first_of (parse_patch p) ≡ some (number_file d) = rw (first_of-map p, e) refl in
      let named = number_file-path d in
      let other : text_eq d.path path ≡ false = ground (arith, parsed, named, h) in
      (
        (λ f g. subst (λ x. text_eq x.path path ≡ false) (some-injective d f (sym e ∙ g)) other),
        find_piece-none path pieces (ground (arith, parsed, named, other, h)),
      )
]

-- The first piece of a path.
record HasPiece (path : Text) (pieces : List Text) (p : Text) (diff : DiffFile) : Type 0 where
  before : List Text
  behind : List Text
  all : pieces ≡ before ++ p ∷ behind
  others : All (IsOther path) before
  file : ParsedFile
  its : file_of p ≡ some file
  numbered : diff ≡ number_file file
  named : file.path ≡ path

find_piece-here :
    (q path : Text) (pieces : List Text) (p : Text) (diff : DiffFile) (d : ParsedFile)
    → file_of q ≡ some d
    → text_eq d.path path ≡ true
    → find_piece path (q ∷ pieces) ≡ some (p, diff)
    → Path (Text × DiffFile) (q, number_file d) (p, diff)
unfolding find_piece
find_piece-here q path pieces p diff d e y h =
    let parsed : first_of (parse_patch q) ≡ some (number_file d) = rw (first_of-map q, e) refl in
    ground (arith, parsed, number_file-path d, y, h)

find_piece-later :
    (q path : Text) (pieces : List Text) (p : Text) (diff : DiffFile) (d : ParsedFile)
    → file_of q ≡ some d
    → text_eq d.path path ≡ false
    → find_piece path (q ∷ pieces) ≡ some (p, diff)
    → find_piece path pieces ≡ some (p, diff)
unfolding find_piece
find_piece-later q path pieces p diff d e y h =
    let parsed : first_of (parse_patch q) ≡ some (number_file d) = rw (first_of-map q, e) refl in
    ground (arith, parsed, number_file-path d, y, h)

HasPiece-cons :
    (q path : Text) (pieces : List Text) (p : Text) (diff : DiffFile)
    → IsOther path q
    → HasPiece path pieces p diff
    → HasPiece path (q ∷ pieces) p diff
HasPiece-cons q path pieces p diff h x = record {
  before = q ∷ x.before;
  behind = x.behind;
  all = ap (◌∷◌ q) x.all;
  others = (h, x.others);
  file = x.file;
  its = x.its;
  numbered = x.numbered;
  named = x.named;
}

find_piece-HasPiece :
    (path : Text) (pieces : List Text) (p : Text) (diff : DiffFile)
    → find_piece path pieces ≡ some (p, diff)
    → HasPiece path pieces p diff
unfolding find_piece
find_piece-HasPiece path [] p diff h = absurd (ground (arith, h))
find_piece-HasPiece path (q ∷ pieces) p diff h = elim (Option-cases (file_of q)) [
  | inl e ↦
      let parsed : first_of (parse_patch q) ≡ none = rw (first_of-map q, e) refl in
      HasPiece-cons q path pieces p diff (λ f g. absurd (ground (arith, e, g)))
        (find_piece-HasPiece path pieces p diff (ground (arith, parsed, h)))
  | inr (d, e) ↦ elim (Bool-cases (text_eq d.path path)) [
    | inr other ↦
        HasPiece-cons q path pieces p diff
          (λ f g. subst (λ x. text_eq x.path path ≡ false) (some-injective d f (sym e ∙ g)) other)
          (find_piece-HasPiece path pieces p diff
            (find_piece-later q path pieces p diff d e other h))
    | inl here ↦
        let found = find_piece-here q path pieces p diff d e here h in
        record {
          before = [];
          behind = pieces;
          all = ap (λ r. r.0 ∷ pieces) found;
          others = tt;
          file = d;
          its = subst (λ r. file_of r.0 ≡ some d) found e;
          numbered = sym (ap (λ r. r.1) found);
          named = text_eq→eq d.path path here;
        }
  ]
]

pub find_file_patch-HasNoFile :
    (patch path : Text) → find_file_patch patch path ≡ none → HasNoFile patch path
unfolding find_file_patch
find_file_patch-HasNoFile patch path h = (
  (pieces_from true patch).0,
  (pieces_from true patch).1,
  pieces_from-IsCut patch,
  find_piece-none path (pieces_from true patch).1 h,
)

pub find_file_patch-HasFile :
    (patch path p : Text) (diff : DiffFile)
    → find_file_patch patch path ≡ some (p, diff)
    → (file : ParsedFile) × HasFile patch path p file × (diff ≡ number_file file)
unfolding find_file_patch
find_file_patch-HasFile patch path p diff h =
    let x = find_piece-HasPiece path (pieces_from true patch).1 p diff h in
    (
      x.file,
      record {
        front = (pieces_from true patch).0;
        before = x.before;
        behind = x.behind;
        cut = subst (IsCut patch (pieces_from true patch).0) x.all (pieces_from-IsCut patch);
        others = x.others;
        its = x.its;
        named = x.named;
      },
      x.numbered,
    )
