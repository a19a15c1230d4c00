-- ===== src/Checksum/Bounds.antt =====
-- The sums of `fletcher32` stay within 32 bits, and are those of the Fletcher checksum.
use hypertable.Base.{
  ℕ, zero, suc, ◌+◌, ◌-◌, ◌*◌, ◌/◌, ◌%◌, ◌^◌, ◌<◌, ◌≤◌, ◌≡◌, inl, inr, refl, ap, List, [], ◌∷◌,
  arith, ◌==◌, if◌then◌else◌, length, IsByte, All, Bool-cases,
}
use hypertable.Checksum.{
  Sums, wrap, do1, words, sixteens, reduce, block_length, block, blocks, odd_byte, fletcher32,
}

-- The Fletcher checksum's two sums of 16-bit words, over numbers without bound: of the words, and of
-- the sums so far. A byte that is left over is the high one of its word.
unfoldable pub sums_from : ℕ → ℕ → List ℕ → ℕ × ℕ
sums_from a b [] = (a, b)
sums_from a b (x ∷ []) = (a + x * 256, b + (a + x * 256))
sums_from a b (x ∷ y ∷ d) = sums_from (a + (x * 256 + y)) (b + (a + (x * 256 + y))) d

-- 1 + ... + n.
triangle : ℕ → ℕ
triangle zero = 0
triangle (suc n) = triangle n + suc n

triangle_mono : (n k : ℕ) → triangle n ≤ triangle (n + k)
unfolding triangle
triangle_mono n zero = ground arith
triangle_mono n (suc k) =
    let e : n + suc k ≡ suc (n + k) = omega arith in rw e (omega (arith, triangle_mono n k))

triangle-360 : triangle 360 ≡ 64980
unfolding triangle
triangle-360 = refl

triangle-le : (n : ℕ) → n ≤ 360 → triangle n ≤ 64980
triangle-le n h =
    let e : n + (360 - n) ≡ 360 = omega arith in
    omega (arith, triangle_mono n (360 - n), ap triangle e, triangle-360)

-- After `j` words of a block: what is left gives the sums `r`, when it is added to numbers that the sums
-- are modulo 65535.
record Fits (j : ℕ) (s : Sums) (d : List ℕ) (r : ℕ × ℕ) : Type 0 where
  a : ℕ
  b : ℕ
  rest : sums_from a b d ≡ r
  low : s.sum1 % 65535 ≡ a % 65535
  high : s.sum2 % 65535 ≡ b % 65535
  bound1 : s.sum1 ≤ 65896 + j * 65535
  bound2 : s.sum2 ≤ 131070 + j * 65896 + triangle j * 65535

Fits-do1 :
    (j : ℕ) (s : Sums) (x y : ℕ) (d : List ℕ) (r : ℕ × ℕ)
    → IsByte x
    → IsByte y
    → j < 360
    → Fits j s (x ∷ y ∷ d) r
    → Fits (suc j) (do1 s (x * 256 + y)) d r
unfolding do1 sums_from triangle
Fits-do1 j s x y d r hx hy h f =
    let small = triangle-le (suc j) (omega arith) in
    record {
      a = f.a + (x * 256 + y);
      b = f.b + (f.a + (x * 256 + y));
      rest = f.rest;
      low = omega (arith, f.low, f.bound1);
      high = omega (arith, f.low, f.high, f.bound1, f.bound2, small);
      bound1 = omega (arith, f.bound1);
      bound2 = omega (arith, f.bound1, f.bound2, small);
    }

-- The words of a block.
record Reads (j n : ℕ) (r : Sums × List ℕ) (d : List ℕ) (t : ℕ × ℕ) : Type 0 where
  fits : Fits (j + n) r.0 r.1 t
  bytes : All IsByte r.1
  left : length r.1 + 2 * n ≡ length d

Reads-words :
    (j n : ℕ) (s : Sums) (d : List ℕ) (r : ℕ × ℕ)
    → j + n ≤ 360
    → 2 * n ≤ length d
    → All IsByte d
    → Fits j s d r
    → Reads j n (words n s d) d r
unfolding words
Reads-words j zero s d r h l bs f =
    let e : j + 0 ≡ j = omega arith in record { fits = rw e f; bytes = bs; left = omega arith }
Reads-words j (suc n) s [] r h l bs f = absurd (omega arith)
Reads-words j (suc n) s (x ∷ []) r h l bs f = absurd (omega arith)
Reads-words j (suc n) s (x ∷ y ∷ d) r h l bs f =
    let rest =
      Reads-words (suc j) n (do1 s (x * 256 + y)) d r (omega arith) (omega arith) bs.1.1
        (Fits-do1 j s x y d r bs.0 bs.1.0 (omega arith) f) in
    let e : j + suc n ≡ suc j + n = omega arith in
    record { fits = rw e rest.fits; bytes = rest.bytes; left = omega (arith, rest.left) }

Reads-trans :
    (j n k : ℕ) (q r : Sums × List ℕ) (d : List ℕ) (t : ℕ × ℕ)
    → Reads j n q d t
    → Reads (j + n) k r q.1 t
    → Reads j (n + k) r d t
Reads-trans j n k q r d t a b =
    let e : j + (n + k) ≡ j + n + k = omega arith in
    record { fits = rw e b.fits; bytes = b.bytes; left = omega (arith, a.left, b.left) }

Reads-sixteens :
    (j k : ℕ) (s : Sums) (d : List ℕ) (t : ℕ × ℕ)
    → j + 16 * k ≤ 360
    → 2 * (16 * k) ≤ length d
    → All IsByte d
    → Fits j s d t
    → Reads j (16 * k) (sixteens k s d) d t
unfolding sixteens words
Reads-sixteens j zero s d t h l bs f = Reads-words j 0 s d t (omega arith) (omega arith) bs f
Reads-sixteens j (suc k) s d t h l bs f =
    let first = Reads-words j 16 s d t (omega arith) (omega arith) bs f in
    let later =
      Reads-sixteens (j + 16) k (words 16 s d).0 (words 16 s d).1 t (omega arith)
        (omega (arith, first.left)) first.bytes first.fits in
    let e : 16 * suc k ≡ 16 + 16 * k = omega arith in
    rw e (
      Reads-trans j 16 (16 * k) (words 16 s d) (sixteens k (words 16 s d).0 (words 16 s d).1) d t
        first later)

-- The reduction leaves the sums as they are modulo 65535.
Fits-reduce :
    (j : ℕ) (s : Sums) (d : List ℕ) (t : ℕ × ℕ) → j ≤ 360 → Fits j s d t → Fits 0 (reduce s) d t
unfolding reduce triangle
Fits-reduce j s d t h f = record {
  a = f.a;
  b = f.b;
  rest = f.rest;
  low = omega (arith, f.low);
  high = omega (arith, f.high);
  bound1 = omega (arith, f.bound1);
  bound2 = omega (arith, f.bound2, triangle-le j h);
}

-- Whole blocks: the sums are reduced.
record Blocks (n : ℕ) (r : Sums × List ℕ) (d : List ℕ) (t : ℕ × ℕ) : Type 0 where
  fits : Fits 0 r.0 r.1 t
  bytes : All IsByte r.1
  left : length r.1 + 2 * n ≡ length d

Blocks-block :
    (tlen : ℕ) (s : Sums) (d : List ℕ) (t : ℕ × ℕ)
    → tlen ≤ 360
    → 2 * tlen ≤ length d
    → All IsByte d
    → Fits 0 s d t
    → Blocks tlen (block tlen s d) d t
unfolding block
Blocks-block tlen s d t h l bs f =
    let k = tlen / 16 in
    let n = tlen % 16 in
    let first = Reads-sixteens 0 k s d t (omega arith) (omega arith) bs f in
    let q = sixteens k s d in
    let later =
      Reads-words (0 + 16 * k) n q.0 q.1 t (omega arith) (omega (arith, first.left)) first.bytes
        first.fits in
    record {
      fits =
          Fits-reduce (0 + 16 * k + n) (words n q.0 q.1).0 (words n q.0 q.1).1 t (omega arith)
            later.fits;
      bytes = later.bytes;
      left = omega (arith, first.left, later.left);
    }

Blocks-blocks :
    (fuel len : ℕ) (s : Sums) (d : List ℕ) (t : ℕ × ℕ)
    → len ≤ fuel
    → 2 * len ≤ length d
    → All IsByte d
    → Fits 0 s d t
    → Blocks len (blocks fuel len s d) d t
unfolding blocks
Blocks-blocks zero len s d t h l bs f = record { fits = f; bytes = bs; left = omega arith }
Blocks-blocks (suc fuel) len s d t h l bs f = elim (Bool-cases (len == 0)) [
  | inl e ↦ rw e (record { fits = f; bytes = bs; left = ground arith })
  | inr e ↦
      let tlen = block_length len in
      let first = Blocks-block tlen s d t (ground arith) (ground arith) bs f in
      let later =
        Blocks-blocks fuel (len - tlen) (block tlen s d).0 (block tlen s d).1 t (ground arith)
          (ground (arith, first.left)) first.bytes first.fits in
      rw e (record {
        fits = later.fits;
        bytes = later.bytes;
        left = ground (arith, first.left, later.left);
      })
]

Fits-odd_byte :
    (s : Sums) (x : ℕ) (t : ℕ × ℕ)
    → IsByte x
    → Fits 0 s (x ∷ []) t
    → Fits 0 (odd_byte s (x ∷ [])) [] t
unfolding odd_byte reduce do1 triangle sums_from
Fits-odd_byte s x t h f = record {
  a = f.a + x * 256;
  b = f.b + (f.a + x * 256);
  rest = f.rest;
  low = omega (arith, f.low, f.bound1);
  high = omega (arith, f.low, f.high, f.bound1, f.bound2);
  bound1 = omega (arith, f.bound1);
  bound2 = omega (arith, f.bound1, f.bound2);
}

-- Before the last reduction.
Fits-tail :
    (s : Sums) (d bytes : List ℕ) (t : ℕ × ℕ)
    → All IsByte d
    → length d + 2 * (length bytes / 2) ≡ length bytes
    → Fits 0 s d t
    → Fits 0 (if length bytes % 2 == 1 then odd_byte s d else s) [] t
Fits-tail s [] bytes t bs l f = elim (Bool-cases (length bytes % 2 == 1)) [
  | inl e ↦ absurd (ground arith)
  | inr e ↦ rw e f
]
Fits-tail s (x ∷ []) bytes t bs l f = elim (Bool-cases (length bytes % 2 == 1)) [
  | inl e ↦ rw e (Fits-odd_byte s x t bs.0 f)
  | inr e ↦ absurd (ground arith)
]
Fits-tail s (x ∷ y ∷ d) bytes t bs l f = absurd (omega arith)

-- A checksum whose low half is `a` and whose high half is `b` modulo 65535.
pub record IsFletcher (checksum a b : ℕ) : Type 0 where
  pub bound : checksum < 2 ^ 32
  pub low : checksum % 65536 % 65535 ≡ a % 65535
  pub high : checksum / 65536 % 65535 ≡ b % 65535

IsFletcher-reduce :
    (s : Sums) (t : ℕ × ℕ)
    → Fits 0 s [] t
    → IsFletcher (wrap ((reduce s).sum2 * 65536) + (reduce s).sum1) t.0 t.1
unfolding reduce sums_from triangle
IsFletcher-reduce s t f =
    let e0 : f.a ≡ t.0 = ap (λ p. p.0) f.rest in
    let e1 : f.b ≡ t.1 = ap (λ p. p.1) f.rest in
    record {
      bound = omega (arith, f.bound1, f.bound2);
      low = omega (arith, f.low, f.bound1, f.bound2, e0);
      high = omega (arith, f.high, f.bound1, f.bound2, e1);
    }

-- fletcher32 of bytes fits in 32 bits, and its halves are modulo 65535 the two sums of the
-- Fletcher checksum, taken over numbers without bound.
pub fletcher32-IsFletcher :
    (bytes : List ℕ)
    → All IsByte bytes
    → IsFletcher (fletcher32 bytes) (sums_from 0 0 bytes).0 (sums_from 0 0 bytes).1
unfolding fletcher32
fletcher32-IsFletcher bytes bs =
    let start : Fits 0 (record { sum1 = 0xffff; sum2 = 0xffff }) bytes (sums_from 0 0 bytes) =
      unfold triangle in
      record {
        a = 0;
        b = 0;
        rest = refl;
        low = refl;
        high = refl;
        bound1 = omega arith;
        bound2 = omega arith;
      } in
    let loop =
      Blocks-blocks (length bytes) (length bytes / 2) _ bytes (sums_from 0 0 bytes) (omega arith)
        (omega arith) bs start in
    IsFletcher-reduce _ (sums_from 0 0 bytes)
      (Fits-tail _ _ bytes (sums_from 0 0 bytes) loop.bytes loop.left loop.fits)
