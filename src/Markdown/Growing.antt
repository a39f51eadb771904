-- ===== src/Markdown/Growing.antt =====
-- markdown-content.ts: the renderings of a message, whatever its texts are.
use reins.Base.{
  ◌≡◌, ◌⊎◌, inl, inr, refl, sym, ap, ◌∙◌, subst, true, List, [], ◌∷◌, ◌++◌, append_assoc, map,
  flatten, any, Text, starts_with, length, drop, drop-append_length, if_ind, arith,
}
use reins.Markdown.Scan.{scan_settled_markdown}
use reins.Markdown.Segments.{Segments, Parts, reset, settle, render, render_all}
use reins.Markdown.Whole.{is_unsplittable}
use reins.Markdown.Settled.{IsSettled, IsCurrent, settle-IsCurrent, begin-of_empty}

-- What is shown of `t`: the parsed segments and the parsed rest are of parts that make up `t`. The scan of
-- the whole of `t` ends where the segments do; or there are no segments, as a text of `seen` cannot be split.
pub record IsFaithful {H : Type 0} (parse : Text → H) (seen : List Text) (t : Text) (p : Parts H)
    : Type 0 where
  pub sources : List Text
  pub rest : Text
  pub settled_of : p.settled ≡ map parse sources
  pub tail_of : p.tail ≡ parse rest
  pub whole : flatten sources ++ rest ≡ t
  pub scanned :
      ((sources ≡ []) × (any is_unsplittable seen ≡ true))
      ⊎ (scan_settled_markdown t 0
          ≡ record { boundary = length (flatten sources); splittable = true })

module _ {H : Type 0} (parse : Text → H) where
  reset-IsSettled : (seen : List Text) → IsSettled parse seen reset
  unfolding reset flatten
  reset-IsSettled seen = record {
    sources = [];
    html = refl;
    whole = refl;
    reads = begin-of_empty parse;
    kept = inl refl;
  }

  render-IsCurrent :
      (seen : List Text) (t : Text) (s : Segments H)
      → IsSettled parse seen s
      → IsCurrent parse (seen ++ t ∷ []) t (render parse s t).0
  unfolding render reset
  render-IsCurrent seen t s x =
      if_ind (λ r. IsCurrent parse (seen ++ t ∷ []) t (settle parse r t))
        (starts_with t s.settled_text) (λ yes. settle-IsCurrent parse seen t s x yes)
        (λ no. settle-IsCurrent parse seen t reset (reset-IsSettled seen) refl)

  render-IsFaithful :
      (seen : List Text) (t : Text) (s : Segments H)
      → IsCurrent parse seen t (render parse s t).0
      → IsFaithful parse seen t (render parse s t).1
  unfolding render
  render-IsFaithful seen t s c =
      let n : Segments H = (render parse s t).0 in
      let x : IsSettled parse seen n = c.is_settled in
      record {
        sources = x.sources;
        rest = c.left;
        settled_of = x.html;
        tail_of =
            ap (λ u. parse u)
              (ap (drop (length n.settled_text)) c.splits
                ∙ drop-append_length n.settled_text c.left);
        whole = ap (λ u. u ++ c.left) x.whole ∙ sym c.splits;
        scanned = elim x.kept [
          | inr (k, none_of, a) ↦ inl (none_of, a)
          | inl k ↦ elim c.scanned [
            | inl q ↦ absurd (ground (arith, k, q))
            | inr q ↦
                inr (q ∙ ap (λ u. record { boundary = length u; splittable = true }) (sym x.whole))
          ]
        ];
      }

  render_all-IsFaithful :
      (seen us : List Text) (t : Text) (s : Segments H)
      → IsSettled parse seen s
      → IsFaithful parse (seen ++ (us ++ t ∷ [])) t (render_all parse s us t).1
  unfolding render_all
  render_all-IsFaithful seen [] t s x =
      render-IsFaithful (seen ++ t ∷ []) t s (render-IsCurrent seen t s x)
  render_all-IsFaithful seen (u ∷ us) t s x =
      subst (λ l. IsFaithful parse l t (render_all parse (render parse s u).0 us t).1)
        (append_assoc seen (u ∷ []) (us ++ t ∷ []))
        (render_all-IsFaithful (seen ++ u ∷ []) us t (render parse s u).0
          (render-IsCurrent seen u s x).is_settled)

  -- Whatever texts an element rendered, `us` and then `t`, what it shows of `t` is the parsed segments and
  -- the parsed rest of parts that make up `t`; and either one scan of the whole of `t` ends where the
  -- segments end, or nothing is settled and the scan of one of the texts found that it cannot be split.
  pub render_all-reset :
      (us : List Text) (t : Text)
      → IsFaithful parse (us ++ t ∷ []) t (render_all parse reset us t).1
  render_all-reset us t = render_all-IsFaithful [] us t reset (reset-IsSettled [])
