-- ===== src/Wal/Writer/Grown.antt =====
-- How the files differ while a flush is under way: the segment that it began in has grown, and files
-- of later segments, up to the active one, are new.
use ingest4x.Prelude.{
  ℕ, ◌+◌, ◌<◌, ◌≤◌, ◌≡◌, inl, inr, sym, ap, ◌∙◌, false, Option, none, some, [], ◌++◌, append-nil,
  append_assoc, ◌==◌, ==_eq, arith, Bool-cases,
}
use ingest4x.Bytes.{Bytes}
use ingest4x.Wal.Log.{Segments}
use ingest4x.Wal.Files.{find_file, put_file, find_file-put_file}

pub record Grown (base : Segments) (first : ℕ) (file : Bytes) (ss : Segments) (current : ℕ)
    : Type 0 where
  pub first_le : first ≤ current
  pub extra : Bytes
  pub grown : find_file first ss ≡ some (file ++ extra)
  pub below : (i : ℕ) → i < first → find_file i ss ≡ find_file i base
  pub above : (i : ℕ) → current < i → find_file i ss ≡ none

-- Every file is there with what it held, and perhaps more.
abbrev pub Extends : Segments → Segments → Type 0
Extends ss ts =
    (i : ℕ) (f : Bytes)
    → find_file i ss ≡ some f
    → (more : Bytes) × (find_file i ts ≡ some (f ++ more))

pub Extends-refl : (ss : Segments) → Extends ss ss
Extends-refl ss i f h = ([], h ∙ ap some (sym (append-nil f)))

pub Extends-trans : (ss ts us : Segments) → Extends ss ts → Extends ts us → Extends ss us
Extends-trans ss ts us p q i f h =
    let (a, ha) = p i f h in
    let (b, hb) = q i (f ++ a) ha in (a ++ b, hb ∙ ap some (append_assoc f a b))

some_value : {a b : Bytes} → ◌≡◌ {A = Option Bytes} (some a) (some b) → a ≡ b
some_value h = cc

none_not_some : {a : Bytes} → ◌≡◌ {A = Option Bytes} none (some a) → ⊥
none_not_some h = cc

ne_test : (i j : ℕ) → i < j → (i == j) ≡ false
ne_test i j h = ground arith

gt_test : (i j : ℕ) → j < i → (i == j) ≡ false
gt_test i j h = ground arith

pub put_file-Extends :
    (i : ℕ) (f more : Bytes) (ss : Segments)
    → find_file i ss ≡ some f
    → Extends ss (put_file i (f ++ more) ss)
put_file-Extends i f more ss h j g k = elim (Bool-cases (i == j)) [
  | inl e ↦
      let same : f ≡ g = some_value (sym h ∙ ap (λ n. find_file n ss) (==_eq i j e) ∙ k) in
      (more, rw (find_file-put_file i j (f ++ more) ss, e, same))
  | inr e ↦ ([], rw (find_file-put_file i j (f ++ more) ss, e, append-nil g) k)
]

pub new_file-Extends :
    (i : ℕ) (f : Bytes) (ss : Segments) → find_file i ss ≡ none → Extends ss (put_file i f ss)
new_file-Extends i f ss h j g k = elim (Bool-cases (i == j)) [
  | inl e ↦ absurd (none_not_some (sym h ∙ ap (λ n. find_file n ss) (==_eq i j e) ∙ k))
  | inr e ↦ ([], rw (find_file-put_file i j f ss, e, append-nil g) k)
]

module _ (base : Segments) (first : ℕ) (file : Bytes) where
  pub Grown-next :
      (ss : Segments) (current : ℕ)
      → Grown base first file ss current
      → Grown base first file ss (current + 1)
  Grown-next ss current g = record {
    first_le = omega (arith, g.first_le);
    extra = g.extra;
    grown = g.grown;
    below = g.below;
    above = λ i h. g.above i (omega arith);
  }

  -- More bytes at the end of the active file.
  pub Grown-append :
      (ss : Segments) (current : ℕ) (f more : Bytes)
      → Grown base first file ss current
      → find_file current ss ≡ some f
      → Grown base first file (put_file current (f ++ more) ss) current
  Grown-append ss current f more g h =
      let (b, hb) = put_file-Extends current f more ss h first (file ++ g.extra) g.grown in
      record {
        first_le = g.first_le;
        extra = g.extra ++ b;
        grown = hb ∙ ap some (append_assoc file g.extra b);
        below = λ i l.
            rw
              (
                find_file-put_file current i (f ++ more) ss,
                gt_test current i (omega (arith, g.first_le)),
              )
              (g.below i l);
        above = λ i l.
            rw (find_file-put_file current i (f ++ more) ss, ne_test current i l) (g.above i l);
      }

  -- A new file for the active segment.
  pub Grown-new :
      (ss : Segments) (current : ℕ) (f : Bytes)
      → Grown base first file ss current
      → find_file current ss ≡ none
      → Grown base first file (put_file current f ss) current
  Grown-new ss current f g h =
      let (b, hb) = new_file-Extends current f ss h first (file ++ g.extra) g.grown in
      record {
        first_le = g.first_le;
        extra = g.extra ++ b;
        grown = hb ∙ ap some (append_assoc file g.extra b);
        below = λ i l.
            rw (find_file-put_file current i f ss, gt_test current i (omega (arith, g.first_le)))
              (g.below i l);
        above = λ i l. rw (find_file-put_file current i f ss, ne_test current i l) (g.above i l);
      }
