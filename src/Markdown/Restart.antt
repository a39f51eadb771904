-- ===== src/Markdown/Restart.antt =====
-- streaming-markdown.ts: a scan that starts again at a boundary.
use reins.Base.{
  ℕ, suc, ◌+◌, ◌≡◌, ◌⊎◌, inl, inr, refl, sym, ap, ◌∙◌, subst, true, false, Option, none, some,
  Option-cases, Bool-cases, [], ◌∷◌, ◌++◌, Text, length, ◌==◌, if◌then◌else◌, arith,
}
use reins.Markdown.Scan.{Scanned, Scanner, fresh, read_line, scan_lines}

-- Where the loop is after a text: the scanner, the position and the line so far; `none` when it returned.
pub record Place : Type 0 where
  pub scanner : Scanner
  pub position : ℕ
  pub part : Text

abbrev pub begin : ℕ → Place
begin n = record { scanner = fresh n; position = n; part = [] }

unfoldable pub after : Place → Text → Option Place
after p [] = some p
after p (c ∷ t) =
    let ended : Option Place = elim (read_line p.scanner p.part (suc p.position)) [
      | none ↦ none
      | some next ↦ after (record { scanner = next; position = suc p.position; part = [] }) t
    ] in
    let longer = after (record p { position = suc p.position; part = p.part ++ c ∷ [] }) t in
    if c == 10 then ended else longer

abbrev pub resumed : ℕ → Option Place → Text → Scanned
resumed from none t = record { boundary = from; splittable = false }
resumed from (some p) t = scan_lines from p.scanner p.position p.part t

abbrev pub longer_place : Place → ℕ → Place
longer_place p c = record p { position = suc p.position; part = p.part ++ c ∷ [] }

abbrev pub next_place : Place → Scanner → Place
next_place p s = record { scanner = s; position = suc p.position; part = [] }

-- A text is scanned as its first part and then the rest.
pub scan_lines-append :
    (from : ℕ) (p : Place) (u v : Text)
    → scan_lines from p.scanner p.position p.part (u ++ v) ≡ resumed from (after p u) v
unfolding scan_lines after
scan_lines-append from p [] v = refl
scan_lines-append from p (c ∷ u) v =
    elim (Option-cases (read_line p.scanner p.part (suc p.position))) [
      | inl q ↦ ground (arith, q, scan_lines-append from (longer_place p c) u v)
      | inr (n, q) ↦ ground (
        arith,
        q,
        scan_lines-append from (next_place p n) u v,
        scan_lines-append from (longer_place p c) u v,
      )
    ]

pub after-append :
    (p : Place) (u v : Text) (q : Place) → after p u ≡ some q → after p (u ++ v) ≡ after q v
unfolding after
after-append p [] v q h = ground (arith, h)
after-append p (c ∷ u) v q h = elim (Option-cases (read_line p.scanner p.part (suc p.position))) [
  | inl e ↦ ground (arith, h, e, after-append (longer_place p c) u v q)
  | inr (n, e) ↦
      ground
        (arith, h, e, after-append (next_place p n) u v q, after-append (longer_place p c) u v q)
]

-- A line moves the boundary only to its own end, where the loop is as at its start.
read_line-fresh :
    (s next : Scanner) (line : Text) (position : ℕ)
    → read_line s line position ≡ some next
    → (next.boundary ≡ s.boundary) ⊎ (next ≡ fresh position)
unfolding read_line
read_line-fresh s next line position h = ground (arith, h)

-- The loop passes `b` within the text, and is there as at its start.
pub record Passes (p : Place) (t : Text) (b : ℕ) : Type 0 where
  pub settled : Text
  pub left : Text
  pub splits : t ≡ settled ++ left
  pub reads : after p settled ≡ some (begin b)
  pub is_at : b ≡ p.position + length settled

Passes-longer :
    (p : Place) (c : ℕ) (t : Text) (b : ℕ)
    → (c == 10) ≡ false
    → Passes (longer_place p c) t b
    → Passes p (c ∷ t) b
unfolding after
Passes-longer p c t b h x = record {
  settled = c ∷ x.settled;
  left = x.left;
  splits = ap (λ u. c ∷ u) x.splits;
  reads = ground (arith, h, x.reads);
  is_at = ground (arith, x.is_at);
}

Passes-next :
    (p : Place) (n : Scanner) (c : ℕ) (t : Text) (b : ℕ)
    → (c == 10) ≡ true
    → read_line p.scanner p.part (suc p.position) ≡ some n
    → Passes (next_place p n) t b
    → Passes p (c ∷ t) b
unfolding after
Passes-next p n c t b h e x = record {
  settled = c ∷ x.settled;
  left = x.left;
  splits = ap (λ u. c ∷ u) x.splits;
  reads = ground (arith, h, e, x.reads);
  is_at = ground (arith, x.is_at);
}

Passes-here :
    (p : Place) (n : Scanner) (c : ℕ) (t : Text)
    → (c == 10) ≡ true
    → read_line p.scanner p.part (suc p.position) ≡ some n
    → n ≡ fresh (suc p.position)
    → Passes p (c ∷ t) (suc p.position)
unfolding after
Passes-here p n c t h e f = record {
  settled = c ∷ [];
  left = t;
  splits = refl;
  reads = ground (arith, h, e, f);
  is_at = omega arith;
}

abbrev pub Moves : Place → Text → ℕ → Type 0
Moves p t b = (b ≡ p.scanner.boundary) ⊎ Passes p t b

Moves-next :
    (p : Place) (n : Scanner) (c : ℕ) (t : Text) (b : ℕ)
    → (c == 10) ≡ true
    → read_line p.scanner p.part (suc p.position) ≡ some n
    → Moves (next_place p n) t b
    → Moves p (c ∷ t) b
Moves-next p n c t b h e (inr x) = inr (Passes-next p n c t b h e x)
Moves-next p n c t b h e (inl k) = elim (read_line-fresh p.scanner n p.part (suc p.position) e) [
  | inl same ↦ inl (k ∙ same)
  | inr f ↦ inr (
      subst (λ m. Passes p (c ∷ t) m) (sym (k ∙ ap (λ x. x.boundary) f))
        (Passes-here p n c t h e f))
]

Moves-longer :
    (p : Place) (c : ℕ) (t : Text) (b : ℕ)
    → (c == 10) ≡ false
    → Moves (longer_place p c) t b
    → Moves p (c ∷ t) b
Moves-longer p c t b h (inl k) = inl k
Moves-longer p c t b h (inr x) = inr (Passes-longer p c t b h x)

-- The boundary of a scan is where it began, or one that the loop passes.
pub scan_lines-Moves :
    (from : ℕ) (p : Place) (t : Text) (r : Scanned)
    → scan_lines from p.scanner p.position p.part t ≡ r
    → r.splittable ≡ true
    → Moves p t r.boundary
unfolding scan_lines
scan_lines-Moves from p [] r e h = inl (ground (arith, e, h))
scan_lines-Moves from p (c ∷ t) r e h = elim (Bool-cases (c == 10)) [
  | inr q ↦
      Moves-longer p c t r.boundary q
        (scan_lines-Moves from (longer_place p c) t r (ground (arith, q, e)) h)
  | inl q ↦ elim (Option-cases (read_line p.scanner p.part (suc p.position))) [
    | inl k ↦ absurd (ground (arith, q, k, e, h))
    | inr (n, k) ↦
        Moves-next p n c t r.boundary q k
          (scan_lines-Moves from (next_place p n) t r (ground (arith, q, k, e)) h)
  ]
]
