-- ===== src/Markdown/Settled.antt =====
-- markdown-content.ts: what one rendering settles.
use reins.Base.{
  ℕ, zero, suc, ◌+◌, ◌<◌, ◌-◌, ◌≡◌, ◌⊎◌, inl, inr, refl, sym, ap, ◌∙◌, subst, Bool, true, false,
  some, Bool-cases, List, [], ◌∷◌, ◌++◌, append_assoc, append-nil, map, flatten, flatten-append,
  any, Text, starts_with, length, length-append, drop, drop-append_length, take, take-append_length,
  arith,
}
use mathlib.Core.List.{map-append}
use reins.Markdown.Scan.{scan_settled_markdown}
use reins.Markdown.Segments.{Segments, settle}
use reins.Markdown.Restart.{begin, after, after-append, Passes, scan_lines-Moves}
use reins.Markdown.Whole.{restart, starts_with-append, is_unsplittable}

-- The segments are parts of the settled text, which the scan reads up to a boundary; when the message
-- is not split, there are none and a text of `seen` was unsplittable.
pub record IsSettled {H : Type 0} (parse : Text → H) (seen : List Text) (s : Segments H)
    : Type 0 where
  pub sources : List Text
  pub html : s.settled_html ≡ map parse sources
  pub whole : flatten sources ≡ s.settled_text
  pub reads : after (begin 0) s.settled_text ≡ some (begin (length s.settled_text))
  pub kept :
      (s.splittable ≡ true)
      ⊎ ((s.splittable ≡ false) × (sources ≡ []) × (any is_unsplittable seen ≡ true))

any-append_left :
    {A : Type 0} (p : A → Bool) (xs ys : List A) → any p xs ≡ true → any p (xs ++ ys) ≡ true
any-append_left p [] ys h = absurd (ground (arith, h))
any-append_left p (x ∷ xs) ys h = ground (arith, h, any-append_left p xs ys)

any-append_last :
    {A : Type 0} (p : A → Bool) (xs : List A) (x : A) → p x ≡ true → any p (xs ++ x ∷ []) ≡ true
any-append_last p [] x h = ground (arith, h)
any-append_last p (y ∷ xs) x h = ground (arith, h, any-append_last p xs x h)

-- The settled segments are those of the text that was rendered last.
pub record IsCurrent {H : Type 0} (parse : Text → H) (seen : List Text) (t : Text) (s : Segments H)
    : Type 0 where
  pub is_settled : IsSettled parse seen s
  pub left : Text
  pub splits : t ≡ s.settled_text ++ left
  pub scanned :
      (s.splittable ≡ false)
      ⊎ (scan_settled_markdown t 0 ≡ record { boundary = length s.settled_text; splittable = true })

module _ {H : Type 0} (parse : Text → H) where
  settle-kept : (s : Segments H) (t : Text) → s.splittable ≡ false → settle parse s t ≡ s
  unfolding settle
  settle-kept s t h = ground (arith, h)

  settle-unsplittable :
      (s : Segments H) (t : Text)
      → s.splittable ≡ true
      → (scan_settled_markdown t (length s.settled_text)).splittable ≡ false
      → settle parse s t ≡ record { settled_text = []; settled_html = []; splittable = false }
  unfolding settle
  settle-unsplittable s t h k = ground (arith, h, k)

  settle-same :
      (s : Segments H) (t : Text)
      → s.splittable ≡ true
      → scan_settled_markdown t (length s.settled_text)
        ≡ record { boundary = length s.settled_text; splittable = true }
      → settle parse s t ≡ s
  unfolding settle
  settle-same s t h k = ground (arith, h, k)

  settle-longer :
      (s : Segments H) (u w : Text) (b : ℕ)
      → s.splittable ≡ true
      → scan_settled_markdown (s.settled_text ++ (u ++ w)) (length s.settled_text)
        ≡ record { boundary = b; splittable = true }
      → b ≡ length s.settled_text + length u
      → length s.settled_text < b
      → settle parse s (s.settled_text ++ (u ++ w)) ≡ record {
        settled_text = s.settled_text ++ u;
        settled_html = s.settled_html ++ parse u ∷ [];
        splittable = true;
      }
  unfolding settle
  settle-longer s u w b h k l m =
      let text_of : take b (s.settled_text ++ (u ++ w)) ≡ s.settled_text ++ u =
        rw (l ∙ sym (length-append s.settled_text u), sym (append_assoc s.settled_text u w))
          (take-append_length (s.settled_text ++ u) w) in
      let part_of : take (b - length s.settled_text)
            (drop (length s.settled_text) (s.settled_text ++ (u ++ w)))
          ≡ u =
        subst (λ n. take n (drop (length s.settled_text) (s.settled_text ++ (u ++ w))) ≡ u)
          (omega (arith, l))
          (ap (take (length u)) (drop-append_length s.settled_text (u ++ w))
            ∙ take-append_length u w) in
      ground (arith, h, k, m, text_of, part_of)

  older :
      (seen : List Text) (t : Text) (s : Segments H)
      → IsSettled parse seen s
      → IsSettled parse (seen ++ t ∷ []) s
  older seen t s x = record {
    sources = x.sources;
    html = x.html;
    whole = x.whole;
    reads = x.reads;
    kept = elim x.kept [
      | inl k ↦ inl k
      | inr (k, n, a) ↦ inr (k, n, any-append_left is_unsplittable seen (t ∷ []) a)
    ];
  }

  pub begin-of_empty : after (begin 0) [] ≡ some (begin 0)
  unfolding after
  begin-of_empty = refl

  -- Nothing is settled of a text that cannot be split.
  unsplit :
      (seen : List Text) (t : Text)
      → is_unsplittable t ≡ true
      → IsCurrent parse
          (seen ++ t ∷ [])
          t
          (record { settled_text = []; settled_html = []; splittable = false })
  unfolding flatten
  unsplit seen t h = record {
    is_settled = record {
      sources = [];
      html = refl;
      whole = refl;
      reads = begin-of_empty;
      kept = inr (refl, refl, any-append_last is_unsplittable seen t h);
    };
    left = t;
    splits = refl;
    scanned = inl refl;
  }

  -- Nothing new is settled.
  same :
      (seen : List Text) (t v : Text) (s : Segments H)
      → IsSettled parse seen s
      → t ≡ s.settled_text ++ v
      → scan_settled_markdown t (length s.settled_text)
        ≡ record { boundary = length s.settled_text; splittable = true }
      → IsCurrent parse (seen ++ t ∷ []) t s
  same seen t v s x e h = record {
    is_settled = older seen t s x;
    left = v;
    splits = e;
    scanned = inr (ground (arith, h, restart t v s.settled_text e x.reads));
  }

  -- A segment is settled.
  longer :
      (seen : List Text) (u w : Text) (s : Segments H) (b : ℕ)
      → IsSettled parse seen s
      → s.splittable ≡ true
      → scan_settled_markdown (s.settled_text ++ (u ++ w)) (length s.settled_text)
        ≡ record { boundary = b; splittable = true }
      → after (begin (length s.settled_text)) u ≡ some (begin b)
      → b ≡ length s.settled_text + length u
      → IsCurrent parse
          (seen ++ (s.settled_text ++ (u ++ w)) ∷ [])
          (s.settled_text ++ (u ++ w))
          (record {
            settled_text = s.settled_text ++ u;
            settled_html = s.settled_html ++ parse u ∷ [];
            splittable = true;
          })
  unfolding flatten
  longer seen u w s b x k h r l = record {
    is_settled = record {
      sources = x.sources ++ u ∷ [];
      html = rw (x.html) (sym (map-append parse x.sources (u ∷ [])));
      whole =
          flatten-append x.sources (u ∷ [])
          ∙ ap (λ a. flatten x.sources ++ a) (append-nil u)
          ∙ ap (λ a. a ++ u) x.whole;
      reads =
          after-append (begin 0) s.settled_text u (begin (length s.settled_text)) x.reads
          ∙ r
          ∙ ap (λ n. some (begin n)) (l ∙ sym (length-append s.settled_text u));
      kept = inl refl;
    };
    left = w;
    splits = sym (append_assoc s.settled_text u w);
    scanned = inr (
        ground (
          arith,
          h,
          l,
          length-append s.settled_text u,
          restart (s.settled_text ++ (u ++ w)) (u ++ w) s.settled_text refl x.reads,
        ));
  }

  unmoved :
      (seen : List Text) (t : Text) (s : Segments H)
      → IsSettled parse seen s
      → t ≡ s.settled_text ++ drop (length s.settled_text) t
      → s.splittable ≡ true
      → scan_settled_markdown t (length s.settled_text)
        ≡ record { boundary = length s.settled_text; splittable = true }
      → IsCurrent parse (seen ++ t ∷ []) t (settle parse s t)
  unmoved seen t s x e k h =
      subst (IsCurrent parse (seen ++ t ∷ []) t) (sym (settle-same s t k h))
        (same seen t (drop (length s.settled_text) t) s x e h)

  lt_or_eq : (n b k : ℕ) → b ≡ n + k → (n < b) ⊎ (b ≡ n)
  lt_or_eq n b zero h = inr (omega (arith, h))
  lt_or_eq n b (suc k) h = inl (omega (arith, h))

  -- The scan passed `b` in the rest.
  passing :
      (seen : List Text) (t : Text) (s : Segments H) (b : ℕ)
      → IsSettled parse seen s
      → t ≡ s.settled_text ++ drop (length s.settled_text) t
      → s.splittable ≡ true
      → scan_settled_markdown t (length s.settled_text) ≡ record { boundary = b; splittable = true }
      → Passes (begin (length s.settled_text)) (drop (length s.settled_text) t) b
      → IsCurrent parse (seen ++ t ∷ []) t (settle parse s t)
  passing seen t s b x e k h c =
      let f : t ≡ s.settled_text ++ (c.settled ++ c.left) = e ∙ ap (◌++◌ s.settled_text) c.splits in
      let g : scan_settled_markdown (s.settled_text ++ (c.settled ++ c.left))
            (length s.settled_text)
          ≡ record { boundary = b; splittable = true } =
        subst
          (λ u.
            scan_settled_markdown u (length s.settled_text)
            ≡ record { boundary = b; splittable = true })
          f h in
      elim (lt_or_eq (length s.settled_text) b (length c.settled) c.is_at) [
        | inl m ↦
            subst (λ u. IsCurrent parse (seen ++ u ∷ []) u (settle parse s u)) (sym f)
              (subst
                (IsCurrent parse (seen ++ (s.settled_text ++ (c.settled ++ c.left)) ∷ [])
                  (s.settled_text ++ (c.settled ++ c.left)))
                (sym (settle-longer s c.settled c.left b k g c.is_at m))
                (longer seen c.settled c.left s b x k g c.reads c.is_at))
        | inr m ↦ unmoved seen t s x e k (
            subst
              (λ n.
                scan_settled_markdown t (length s.settled_text)
                ≡ record { boundary = n; splittable = true })
              m h)
      ]

  splittable_lem :
      (seen : List Text) (t : Text) (s : Segments H)
      → IsSettled parse seen s
      → t ≡ s.settled_text ++ drop (length s.settled_text) t
      → s.splittable ≡ true
      → (scan_settled_markdown t (length s.settled_text)).splittable ≡ true
      → IsCurrent parse (seen ++ t ∷ []) t (settle parse s t)
  unfolding scan_settled_markdown
  splittable_lem seen t s x e k q =
      let n : ℕ = length s.settled_text in
      elim (scan_lines-Moves n (begin n) (drop n t) (scan_settled_markdown t n) refl q) [
        | inl m ↦ unmoved seen t s x e k (ground (arith, m, q))
        | inr c ↦ passing seen t s (scan_settled_markdown t n).boundary x e k (ground (arith, q)) c
      ]

  -- A rendering of a text that begins with what is settled.
  pub settle-IsCurrent :
      (seen : List Text) (t : Text) (s : Segments H)
      → IsSettled parse seen s
      → starts_with t s.settled_text ≡ true
      → IsCurrent parse (seen ++ t ∷ []) t (settle parse s t)
  settle-IsCurrent seen t s x h =
      let v : Text = drop (length s.settled_text) t in
      let e : t ≡ s.settled_text ++ v = starts_with-append t s.settled_text h in
      elim x.kept [
        | inr (k, n, a) ↦
            subst (IsCurrent parse (seen ++ t ∷ []) t) (sym (settle-kept s t k))
              (record { is_settled = older seen t s x; left = v; splits = e; scanned = inl k })
        | inl k ↦ elim (Bool-cases (scan_settled_markdown t (length s.settled_text)).splittable) [
          | inr q ↦
              subst (IsCurrent parse (seen ++ t ∷ []) t) (sym (settle-unsplittable s t k q))
                (unsplit seen t (ground (arith, q, restart t v s.settled_text e x.reads)))
          | inl q ↦ splittable_lem seen t s x e k q
        ]
      ]
