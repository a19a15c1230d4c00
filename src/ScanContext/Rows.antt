-- ===== src/ScanContext/Rows.antt =====
-- The rows that a scan context takes in.
use hypertable.Base.{
  ℕ, ◌<◌, ◌≡◌, inl, inr, refl, Bool, ◌&&◌, ◌||◌, true, false, not, Bool-cases, List, [], ◌∷◌, ◌++◌,
  arith, ◌==◌, length,
}
use Prim.Native.Nat.{Ordering}
use hypertable.ByteString.Order.{lex, lex-flip, is_lt}
use hypertable.Serialization.Codec.{chars}
use hypertable.ScanSpec.{RowInterval}
use hypertable.Key.RoundTrip.{IsCstring}
use hypertable.ScanContext.{bump, start_of, end_of}

-- A row of the interval: behind its start, or the start if that is included.
abbrev pub after_start : RowInterval → List ℕ → Bool
after_start i row = elim (lex (chars i.start) row) [
  | Ordering.lt ↦ true
  | Ordering.eq ↦ i.start_inclusive
  | Ordering.gt ↦ false
]

-- Whether the row starts with the bytes, and whether those end with 0xff.
unfoldable pub starts_with : List ℕ → List ℕ → Bool
starts_with [] row = true
starts_with (x ∷ xs) [] = false
starts_with (x ∷ xs) (y ∷ row) = (x == y) && starts_with xs row

unfoldable pub ends_0xff : List ℕ → Bool
ends_0xff [] = false
ends_0xff (x ∷ []) = x == 0xff
ends_0xff (x ∷ y ∷ xs) = ends_0xff (y ∷ xs)

abbrev pub up_to : Bool → Ordering → Bool
up_to inclusive Ordering.lt = true
up_to inclusive Ordering.eq = inclusive
up_to inclusive Ordering.gt = false

abbrev pub before_end : RowInterval → List ℕ → Bool
before_end i row = up_to i.end_inclusive (lex row (chars i.end))

-- A row that starts with an included end, which does not end with 0xff.
abbrev pub runs_over : RowInterval → List ℕ → Bool
runs_over i row =
    i.end_inclusive && (not (ends_0xff (chars i.end)) && starts_with (chars i.end) row)

pub lex-nil : (r : List ℕ) → is_lt (lex r []) ≡ false
unfolding lex
lex-nil [] = refl
lex-nil (x ∷ r) = refl

behind_1 : (w : ℕ) (r : List ℕ) → 0 < w → is_lt (lex (w ∷ r) (1 ∷ [])) ≡ false
unfolding lex
behind_1 w r h = ground (arith, lex-nil r)

lex-bump :
    (r x : List ℕ)
    → (length x == 0) ≡ false
    → IsCstring r
    → is_lt (lex r (bump x)) ≡ (up_to true (lex r x) || (not (ends_0xff x) && starts_with x r))
unfolding lex bump starts_with ends_0xff
lex-bump r [] n c = absurd (ground (arith, n))
lex-bump [] (y ∷ []) n c = ground arith
lex-bump (x ∷ []) (y ∷ []) n c = ground arith
lex-bump (x ∷ w ∷ r) (y ∷ []) n c = elim (Bool-cases (y == 0xff)) [
  | inl e ↦ rw (e, bump) (ground (arith, behind_1 w r c.1.0))
  | inr e ↦ rw (e, bump) (ground (arith, lex-nil r))
]
lex-bump [] (y ∷ z ∷ s) n c = refl
lex-bump (x ∷ r) (y ∷ z ∷ s) n c = ground (arith, lex-bump r (z ∷ s) (ground arith) c.1)

lex-start : (s r : List ℕ) → IsCstring r → is_lt (lex r (s ++ (1 ∷ []))) ≡ not (is_lt (lex s r))
unfolding lex
lex-start [] [] c = refl
lex-start [] (x ∷ []) c = ground (arith, c.0)
lex-start [] (x ∷ w ∷ r) c = ground (arith, c.0)
lex-start (y ∷ s) [] c = refl
lex-start (y ∷ s) (x ∷ r) c = ground (arith, lex-start s r c.1)

module _ (i : RowInterval) (row : List ℕ) (c : IsCstring row) where
  start_of-exact : is_lt (lex row (start_of i)) ≡ not (after_start i row)
  unfolding start_of
  start_of-exact = elim (Bool-cases i.start_inclusive) [
    | inl e ↦ rw e (ground (arith, lex-flip (chars i.start) row))
    | inr e ↦ rw e (lex-start (chars i.start) row c)
  ]

  end_of-exact :
      (length (chars i.end) == 0) ≡ false
      → is_lt (lex row (end_of i)) ≡ (before_end i row || runs_over i row)
  unfolding end_of
  end_of-exact n = elim (Bool-cases i.end_inclusive) [
    | inl e ↦ rw (n, e) (lex-bump row (chars i.end) n c)
    | inr e ↦ rw (n, e) (ground arith)
  ]

  -- Of a row interval that has an end, a scan takes in these rows: a row lies before the start row exactly
  -- if the start of the interval leaves it out, and before the end row exactly if the end of the interval
  -- takes it in, or the end is included, does not end with 0xff, and the row starts with it. The row
  -- holds no NUL.
  pub start_of-end_of :
      (length (chars i.end) == 0) ≡ false
      → (is_lt (lex row (start_of i)) ≡ not (after_start i row))
        × (is_lt (lex row (end_of i)) ≡ (before_end i row || runs_over i row))
  start_of-end_of n = (start_of-exact, end_of-exact n)
