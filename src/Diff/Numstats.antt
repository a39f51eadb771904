-- ===== src/Diff/Numstats.antt =====
-- diff-parser.ts: what git prints for `--numstat -z` is parsed as it was meant.
use reins.Base.{
  sym, text, decimal, decimal_onto, ◌<◌, ◌/◌, ◌%◌, true, ltb, Bool-cases, inl, inr, ℕ, zero, suc,
  ◌+◌, ◌≡◌, refl, ap, ◌∙◌, subst, false, Option, none, some, List, [], ◌∷◌, ◌++◌, append_assoc, All,
  All-append, length-append, map, Text, split_at, split_at-append, has, has-append, take, drop,
  length, take-append_length, ◌==◌, if◌then◌else◌, arith,
}
use reins.Diff.Numstat.{
  ℤ, pos, digits, is_digit, Summary, count_of, index_of, nth, read_field, read_fields,
  parse_numstat,
}

-- A changed file with its counts, `none` for a binary file.
pub record Entry : Type 0 where
  pub added : Option ℕ
  pub removed : Option ℕ
  pub old_path : Option Text
  pub path : Text

-- A count as git prints it, and what it counts for.
abbrev pub printed : Option ℕ → Text
printed none = text "-"
printed (some n) = decimal n

abbrev pub value_of : Option ℕ → ℤ
value_of none = pos 0
value_of (some n) = pos n

-- The fields of an entry: one, or three for a rename.
abbrev fields_by : Text → Text → Text → Option Text → List Text
fields_by added removed path none = (added ++ 9 ∷ (removed ++ 9 ∷ path)) ∷ []
fields_by added removed path (some old) = (added ++ 9 ∷ (removed ++ 9 ∷ [])) ∷ old ∷ path ∷ []

abbrev pub fields_of : Entry → List Text
fields_of e = fields_by (printed e.added) (printed e.removed) e.path e.old_path

-- The fields of all entries, each ended by a NUL.
abbrev pub all_fields : List Entry → List Text
all_fields [] = []
all_fields (e ∷ entries) = fields_of e ++ all_fields entries

abbrev pub print_fields : List Text → Text
print_fields [] = []
print_fields (f ∷ fields) = f ++ 0 ∷ print_fields fields

abbrev pub summary_of : Entry → Summary
summary_of e = record {
  path = some e.path;
  old_path = e.old_path;
  additions = value_of e.added;
  removals = value_of e.removed;
}

abbrev IsFree : Text → Type 0
IsFree t = has 0 t ≡ false

abbrev IsPath : Text → Type 0
IsPath t = (has 0 t ≡ false) × ((length t == 0) ≡ false)

abbrev IsOld : Option Text → Type 0
IsOld none = Unit
IsOld (some old) = has 0 old ≡ false

-- A path is not empty and no path has a NUL.
abbrev pub IsEntry : Entry → Type 0
IsEntry e = IsPath e.path × IsOld e.old_path

-- The digits of a number are read as the number.
digits-decimal_onto :
    (fuel n : ℕ) (rest : Text) → n < fuel → digits 0 (decimal_onto fuel n rest) ≡ digits n rest
digits-decimal_onto zero n rest h = absurd (omega arith)
digits-decimal_onto (suc fuel) n rest h =
    ground (arith, digits-decimal_onto fuel (n / 10) ((48 + n % 10) ∷ rest))

starts_with_digit :
    (fuel n : ℕ) (rest : Text)
    → (c : ℕ) × (t : Text) × (decimal_onto (suc fuel) n rest ≡ c ∷ t) × (is_digit c ≡ true)
starts_with_digit zero n rest = elim (Bool-cases (ltb n 10)) [
  | inl few ↦ (48 + n, rest, ground arith, ground arith)
  | inr many ↦ (48 + n % 10, rest, ground arith, ground arith)
]
starts_with_digit (suc fuel) n rest = elim (Bool-cases (ltb n 10)) [
  | inl few ↦ (48 + n, rest, ground arith, ground arith)
  | inr many ↦
      let (c, t, e, d) = starts_with_digit fuel (n / 10) ((48 + n % 10) ∷ rest) in
      (c, t, ground (arith, e), d)
]

count_of-digit : (c : ℕ) (t : Text) → is_digit c ≡ true → count_of (c ∷ t) ≡ pos (digits 0 (c ∷ t))
count_of-digit c t h = ground arith

has-decimal_onto :
    (k fuel n : ℕ) (rest : Text)
    → is_digit k ≡ false
    → has k rest ≡ false
    → has k (decimal_onto fuel n rest) ≡ false
has-decimal_onto k zero n rest h l = l
has-decimal_onto k (suc fuel) n rest h l =
    ground (arith, has-decimal_onto k fuel (n / 10) ((48 + n % 10) ∷ rest) h)

count_of-printed : (o : Option ℕ) → count_of (printed o) ≡ value_of o
count_of-printed none = refl
count_of-printed (some n) =
    let (c, t, e, d) = starts_with_digit n n [] in
    let value : digits 0 (decimal n) ≡ n = digits-decimal_onto (suc n) n [] (omega arith) in
    let same : decimal n ≡ c ∷ t = e in
    ap count_of same ∙ count_of-digit c t d ∙ ap (λ x. pos (digits 0 x)) (sym same) ∙ ap pos value

printed-free :
    (k : ℕ) (o : Option ℕ) → is_digit k ≡ false → (k == b'-') ≡ false → has k (printed o) ≡ false
printed-free k none h l = ground arith
printed-free k (some n) h l = has-decimal_onto k (suc n) n [] h refl

index_of-here : (a t : Text) → has 9 a ≡ false → index_of 0 (a ++ 9 ∷ t) ≡ some (length a)
index_of-here [] t h = refl
index_of-here (c ∷ a) t h = ground (arith, h, index_of-here a t)

index_of-behind :
    (a b t : Text)
    → has 9 b ≡ false
    → index_of (suc (length a)) (a ++ 9 ∷ (b ++ 9 ∷ t)) ≡ some (suc (length a) + length b)
index_of-behind [] b t h = ground (arith, index_of-here b t h)
index_of-behind (c ∷ a) b t h = ground (arith, index_of-behind a b t h)

drop-behind : (b t : Text) → drop (suc (length b)) (b ++ 9 ∷ t) ≡ t
drop-behind [] t = refl
drop-behind (c ∷ b) t = drop-behind b t

between :
    (a b t : Text) (n : ℕ)
    → n ≡ suc (length a) + length b
    → drop (suc (length a)) (take n (a ++ 9 ∷ (b ++ 9 ∷ t))) ≡ b
between a b t zero h = absurd (omega (arith, h))
between [] b t (suc n) h =
    subst (λ m. take m (b ++ 9 ∷ t) ≡ b) (omega (arith, h)) (take-append_length b (9 ∷ t))
between (c ∷ a) b t (suc n) h = between a b t n (omega (arith, h))

drop-second :
    (a b t : Text) (n : ℕ)
    → n ≡ suc (suc (length a) + length b)
    → drop n (a ++ 9 ∷ (b ++ 9 ∷ t)) ≡ t
drop-second a b t zero h = absurd (omega (arith, h))
drop-second [] b t (suc n) h =
    let e : suc (length b) ≡ n = omega (arith, h) in
    subst (λ m. drop m (b ++ 9 ∷ t) ≡ t) e (drop-behind b t)
drop-second (c ∷ a) b t (suc n) h = drop-second a b t n (omega (arith, h))

-- A field with two tabs is read as its three parts.
read_field-parts :
    (a b p : Text) (fields : List Text)
    → has 9 a ≡ false
    → has 9 b ≡ false
    → read_field (a ++ 9 ∷ (b ++ 9 ∷ p)) fields ≡ (
        if length p == 0
        then (
          record {
            path = nth 1 fields;
            old_path = nth 0 fields;
            additions = count_of a;
            removals = count_of b;
          },
          2,
        )
        else (
          record { path = some p; old_path = none; additions = count_of a; removals = count_of b },
          0,
        ))
read_field-parts a b p fields h k =
    rw
      (
        index_of-here a (b ++ 9 ∷ p) h,
        index_of-behind a b p k,
        take-append_length a (9 ∷ (b ++ 9 ∷ p)),
        between a b p (suc (length a) + length b) refl,
        drop-second a b p (suc (suc (length a) + length b)) refl,
      )
      refl

split_at-print_fields :
    (fields : List Text)
    → All IsFree fields
    → split_at 0 [] (print_fields fields) ≡ fields ++ [] ∷ []
unfolding split_at
split_at-print_fields [] h = refl
split_at-print_fields (f ∷ fields) h =
    split_at-append 0 [] f (print_fields fields) h.0 ∙ ap (◌∷◌ f) (split_at-print_fields fields h.1)

line-IsFree : (a b p : Text) → IsFree a → IsFree b → IsFree p → IsFree (a ++ 9 ∷ (b ++ 9 ∷ p))
line-IsFree a b p h k l = has-append 0 a (9 ∷ (b ++ 9 ∷ p)) h (has-append 0 b (9 ∷ p) k l)

line-present : (a t : Text) → (length (a ++ 9 ∷ t) == 0) ≡ false
line-present a t = ground (arith, length-append a (9 ∷ t))

fields_by-IsFree :
    (a b p : Text) (o : Option Text)
    → IsFree a
    → IsFree b
    → IsFree p
    → IsOld o
    → All IsFree (fields_by a b p o)
fields_by-IsFree a b p none h k l m = (line-IsFree a b p h k l, tt)
fields_by-IsFree a b p (some old) h k l m = (line-IsFree a b [] h k refl, (m, (l, tt)))

read_fields-fields_by :
    (a b p : Text) (o : Option Text) (fields : List Text)
    → has 9 a ≡ false
    → has 9 b ≡ false
    → (length p == 0) ≡ false
    → read_fields 0 (fields_by a b p o ++ fields)
      ≡ record { path = some p; old_path = o; additions = count_of a; removals = count_of b }
        ∷ read_fields 0 fields
unfolding read_fields
read_fields-fields_by a b p none fields h k l =
    rw (read_field-parts a b p fields h k, l, line-present a (b ++ 9 ∷ p)) refl
read_fields-fields_by a b p (some old) fields h k l =
    rw (read_field-parts a b [] (old ∷ p ∷ fields) h k, line-present a (b ++ 9 ∷ [])) refl

read_fields-all_fields :
    (entries : List Entry)
    → All IsEntry entries
    → read_fields 0 (all_fields entries ++ [] ∷ []) ≡ map summary_of entries
unfolding read_fields
read_fields-all_fields [] v = refl
read_fields-all_fields (e ∷ entries) v =
    ap (read_fields 0) (append_assoc (fields_of e) (all_fields entries) ([] ∷ []))
    ∙ read_fields-fields_by (printed e.added) (printed e.removed) e.path e.old_path
        (all_fields entries ++ [] ∷ []) (printed-free 9 e.added refl refl)
        (printed-free 9 e.removed refl refl) v.0.0.1
    ∙ ap
        (λ n.
          record {
            path = some e.path;
            old_path = e.old_path;
            additions = n;
            removals = count_of (printed e.removed);
          }
          ∷ read_fields 0 (all_fields entries ++ [] ∷ []))
        (count_of-printed e.added)
    ∙ ap
        (λ n.
          record {
            path = some e.path;
            old_path = e.old_path;
            additions = value_of e.added;
            removals = n;
          }
          ∷ read_fields 0 (all_fields entries ++ [] ∷ []))
        (count_of-printed e.removed)
    ∙ ap (◌∷◌ (summary_of e)) (read_fields-all_fields entries v.1)

all_fields-IsFree : (entries : List Entry) → All IsEntry entries → All IsFree (all_fields entries)
all_fields-IsFree [] v = tt
all_fields-IsFree (e ∷ entries) v =
    All-append IsFree (fields_of e) (all_fields entries)
      (fields_by-IsFree (printed e.added) (printed e.removed) e.path e.old_path
        (printed-free 0 e.added refl refl) (printed-free 0 e.removed refl refl) v.0.0.0 v.0.1)
      (all_fields-IsFree entries v.1)

-- What git prints for `git diff --numstat -z` is parsed as it was meant, renames and binary files
-- included: each entry gives its paths and the values of its counts.
pub parse_numstat-print_fields :
    (entries : List Entry)
    → All IsEntry entries
    → parse_numstat (print_fields (all_fields entries)) ≡ map summary_of entries
unfolding parse_numstat
parse_numstat-print_fields entries v =
    ap (read_fields 0) (split_at-print_fields (all_fields entries) (all_fields-IsFree entries v))
    ∙ read_fields-all_fields entries v
