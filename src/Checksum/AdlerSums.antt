-- ===== src/Checksum/AdlerSums.antt =====
-- Both versions of Adler-32 give its definition.
use hypertable.Base.{
  ℕ, zero, suc, ◌+◌, ◌-◌, ◌*◌, ◌/◌, ◌%◌, ◌^◌, ◌<◌, ◌≤◌, ◌≡◌, inl, inr, refl, sym, ap, ◌∙◌, List, [],
  ◌∷◌, arith, ltb, ◌==◌, if◌then◌else◌, length, IsByte, All, Bool-cases,
}
use mathlib.Core.Path.{subst}
use hypertable.Checksum.Adler.{
  Adler, add_byte, add_bytes, unpack, pack, fold_high, subtract_once, adler_blocks, fold_both,
  mod_both, adler32_update_wp, adler32_wp, sixteen_bytes, unrolled, adler32_update, adler32,
}

-- The two sums of Adler-32 over numbers without bound.
unfoldable pub adler_from : ℕ → ℕ → List ℕ → ℕ × ℕ
adler_from a b [] = (a, b)
adler_from a b (x ∷ d) = adler_from (a + x) (b + (a + x)) d

-- How far the second sum of a block grows in so many bytes, where the first sum starts at `u` at most.
grow : ℕ → ℕ → ℕ
grow u zero = 0
grow u (suc j) = grow u j + (u + suc j * 255)

grow_mono : (u n k : ℕ) → grow u n ≤ grow u (n + k)
unfolding grow
grow_mono u n zero = ground arith
grow_mono u n (suc k) =
    let e : n + suc k ≡ suc (n + k) = omega arith in rw e (omega (arith, grow_mono u n k))

grow_fold : grow 65850 5550 ≡ 4293493875
unfolding grow
grow_fold = refl

grow_mod : grow 65520 5552 ≡ 4294624680
unfolding grow
grow_mod = refl

-- The bytes of a block that starts with sums of at most `u` and `v`.
module _ (u v most : ℕ) (small1 : u + most * 255 < 2 ^ 32) (small2 : v + grow u most < 2 ^ 32) where
  grow-le : (n : ℕ) → n ≤ most → v + grow u n < 2 ^ 32
  grow-le n h =
      let e : n + (most - n) ≡ most = omega arith in
      omega (arith, grow_mono u n (most - n), ap (grow u) e, small2)

  -- After `j` bytes.
  record Follows (j : ℕ) (s : Adler) (d : List ℕ) (r : ℕ × ℕ) : Type 0 where
    first : ℕ
    second : ℕ
    rest : adler_from first second d ≡ r
    low : s.a % 65521 ≡ first % 65521
    high : s.b % 65521 ≡ second % 65521
    bound1 : s.a ≤ u + j * 255
    bound2 : s.b ≤ v + grow u j

  Follows-add_byte :
      (j : ℕ) (s : Adler) (x : ℕ) (d : List ℕ) (r : ℕ × ℕ)
      → IsByte x
      → j < most
      → Follows j s (x ∷ d) r
      → Follows (suc j) (add_byte s x) d r
  unfolding add_byte adler_from grow
  Follows-add_byte j s x d r hx h f =
      let small = grow-le (suc j) (omega arith) in
      record {
        first = f.first + x;
        second = f.second + (f.first + x);
        rest = f.rest;
        low = omega (arith, f.low, f.bound1, small1);
        high = omega (arith, f.low, f.high, f.bound1, f.bound2, small, small1);
        bound1 = omega (arith, f.bound1);
        bound2 = omega (arith, f.bound1, f.bound2, small, small1);
      }

  record Passes (j n : ℕ) (r : Adler × List ℕ) (d : List ℕ) (t : ℕ × ℕ) : Type 0 where
    fits : Follows (j + n) r.0 r.1 t
    bytes : All IsByte r.1
    left : length r.1 + n ≡ length d

  Passes-add_bytes :
      (j n : ℕ) (s : Adler) (d : List ℕ) (r : ℕ × ℕ)
      → j + n ≤ most
      → n ≤ length d
      → All IsByte d
      → Follows j s d r
      → Passes j n (add_bytes n s d) d r
  unfolding add_bytes
  Passes-add_bytes j zero s d r h l bs f =
      let e : j + 0 ≡ j = omega arith in record { fits = rw e f; bytes = bs; left = omega arith }
  Passes-add_bytes j (suc n) s [] r h l bs f = absurd (omega arith)
  Passes-add_bytes j (suc n) s (x ∷ d) r h l bs f =
      let rest =
        Passes-add_bytes (suc j) n (add_byte s x) d r (omega arith) (omega arith) bs.1
          (Follows-add_byte j s x d r bs.0 (omega arith) f) in
      let e : j + suc n ≡ suc j + n = omega arith in
      record { fits = rw e rest.fits; bytes = rest.bytes; left = omega (arith, rest.left) }

  Passes-trans :
      (j n k : ℕ) (q r : Adler × List ℕ) (d : List ℕ) (t : ℕ × ℕ)
      → Passes j n q d t
      → Passes (j + n) k r q.1 t
      → Passes j (n + k) r d t
  Passes-trans j n k q r d t a b =
      let e : j + (n + k) ≡ j + n + k = omega arith in
      record { fits = rw e b.fits; bytes = b.bytes; left = omega (arith, a.left, b.left) }

  Passes-sixteen_bytes :
      (j k : ℕ) (s : Adler) (d : List ℕ) (t : ℕ × ℕ)
      → j + 16 * k ≤ most
      → 16 * k ≤ length d
      → All IsByte d
      → Follows j s d t
      → Passes j (16 * k) (sixteen_bytes k s d) d t
  unfolding sixteen_bytes add_bytes
  Passes-sixteen_bytes j zero s d t h l bs f =
      Passes-add_bytes j 0 s d t (omega arith) (omega arith) bs f
  Passes-sixteen_bytes j (suc k) s d t h l bs f =
      let q = add_bytes 16 s d in
      let first = Passes-add_bytes j 16 s d t (omega arith) (omega arith) bs f in
      let later =
        Passes-sixteen_bytes (j + 16) k q.0 q.1 t (omega arith) (omega (arith, first.left))
          first.bytes first.fits in
      let e : 16 * suc k ≡ 16 + 16 * k = omega arith in
      rw e (Passes-trans j 16 (16 * k) q (sixteen_bytes k q.0 q.1) d t first later)

  Passes-unrolled :
      (tlen : ℕ) (s : Adler) (d : List ℕ) (t : ℕ × ℕ)
      → tlen ≤ most
      → tlen ≤ length d
      → All IsByte d
      → Follows 0 s d t
      → Passes 0 tlen (unrolled tlen s d) d t
  unfolding unrolled
  Passes-unrolled tlen s d t h l bs f =
      let k = tlen / 16 in
      let n = tlen % 16 in
      let q = sixteen_bytes k s d in
      let first = Passes-sixteen_bytes 0 k s d t (omega arith) (omega arith) bs f in
      let later =
        Passes-add_bytes (0 + 16 * k) n q.0 q.1 t (omega arith) (omega (arith, first.left))
          first.bytes first.fits in
      let e : 16 * k + n ≡ tlen = omega arith in
      subst (λ m. Passes 0 m (add_bytes n q.0 q.1) d t) e
        (Passes-trans 0 (16 * k) n q (add_bytes n q.0 q.1) d t first later)

  -- A block's end brings the sums back within `u` and `v`.
  Settles : (Adler → Adler) → Type 0
  Settles settle =
      (s : Adler)
      → s.a ≤ u + most * 255
      → s.b < 2 ^ 32
      → ((settle s).a ≤ u)
        × ((settle s).b ≤ v)
        × ((settle s).a % 65521 ≡ s.a % 65521)
        × ((settle s).b % 65521 ≡ s.b % 65521)

  Reader : (ℕ → Adler → List ℕ → Adler × List ℕ) → Type 0
  Reader run =
      (tlen : ℕ) (s : Adler) (d : List ℕ) (t : ℕ × ℕ)
      → tlen ≤ most
      → tlen ≤ length d
      → All IsByte d
      → Follows 0 s d t
      → Passes 0 tlen (run tlen s d) d t

  module _ (run : ℕ → Adler → List ℕ → Adler × List ℕ) (settle : Adler → Adler) (runs : Reader run)
      (settles : Settles settle) (positive : 0 < most) where
    Follows-settle :
        (j : ℕ) (s : Adler) (d : List ℕ) (t : ℕ × ℕ)
        → j ≤ most
        → Follows j s d t
        → Follows 0 (settle s) d t
    unfolding Settles grow
    Follows-settle j s d t h f =
        let small = grow-le j h in
        let (a1, b1, a2, b2) =
          settles s (omega (arith, f.bound1)) (omega (arith, f.bound2, small)) in
        record {
          first = f.first;
          second = f.second;
          rest = f.rest;
          low = a2 ∙ f.low;
          high = b2 ∙ f.high;
          bound1 = omega (arith, a1);
          bound2 = omega (arith, b1);
        }

    Follows-blocks :
        (fuel len : ℕ) (s : Adler) (d : List ℕ) (t : ℕ × ℕ)
        → len ≤ fuel
        → len ≡ length d
        → All IsByte d
        → Follows 0 s d t
        → Follows 0 (adler_blocks most run settle fuel len s d) [] t
    unfolding adler_blocks Reader
    Follows-blocks zero len s [] t h l bs f = f
    Follows-blocks zero len s (x ∷ d) t h l bs f = absurd (omega arith)
    Follows-blocks (suc fuel) len s d t h l bs f = elim (Bool-cases (len == 0)) [
      | inl e ↦ rw e (at_end d (ground arith) f)
      | inr e ↦
          let tlen : ℕ = if ltb most len then most else len in
          let q = run tlen s d in
          let first = runs tlen s d t (ground arith) (ground arith) bs f in
          rw e (
            Follows-blocks fuel (len - tlen) (settle q.0) q.1 t (ground arith)
              (ground (arith, first.left)) first.bytes
              (Follows-settle (0 + tlen) q.0 q.1 t (ground arith) first.fits))
    ]
      where
        at_end : (d : List ℕ) → length d ≡ 0 → Follows 0 s d t → Follows 0 s [] t
        at_end [] z f = f
        at_end (x ∷ d) z f = absurd (omega arith)

-- The Adler-32 checksum of two sums.
unfoldable pub adler_of : ℕ × ℕ → ℕ
adler_of t = t.1 % 65521 * 65536 + t.0 % 65521

pack-wp :
    (s : Adler) (t : ℕ × ℕ)
    → s.a ≤ 65850
    → s.b ≤ 1048560
    → s.a % 65521 ≡ t.0 % 65521
    → s.b % 65521 ≡ t.1 % 65521
    → pack (record { a = subtract_once s.a; b = subtract_once (fold_high s.b) }) ≡ adler_of t
unfolding pack subtract_once fold_high adler_of
pack-wp s t h k e f = ground arith

pack-plain :
    (s : Adler) (t : ℕ × ℕ)
    → s.a ≤ 65520
    → s.b ≤ 65520
    → s.a % 65521 ≡ t.0 % 65521
    → s.b % 65521 ≡ t.1 % 65521
    → pack s ≡ adler_of t
unfolding pack adler_of
pack-plain s t h k e f = omega arith

module _ (u v most : ℕ) (small1 : u + most * 255 < 2 ^ 32) (small2 : v + grow u most < 2 ^ 32)
    (one : 1 ≤ u) (bytes : List ℕ) where
  Follows-start : Follows u v most small1 small2 0 (unpack 1) bytes (adler_from 1 0 bytes)
  unfolding unpack grow
  Follows-start = record {
    first = 1;
    second = 0;
    rest = refl;
    low = refl;
    high = refl;
    bound1 = omega arith;
    bound2 = omega arith;
  }

module _ (bytes : List ℕ) (bs : All IsByte bytes) where
  wp-adler_of : adler32_wp bytes ≡ adler_of (adler_from 1 0 bytes)
  unfolding adler32_wp adler32_update_wp adler_from Settles Reader fold_high grow
  wp-adler_of =
      let small1 : 65850 + 5550 * 255 < 2 ^ 32 = omega arith in
      let small2 : 1048560 + grow 65850 5550 < 2 ^ 32 = omega (arith, grow_fold) in
      let f =
        Follows-blocks 65850 1048560 5550 small1 small2 add_bytes fold_both
          (λ tlen s d t h l b g.
            Passes-add_bytes 65850 1048560 5550 small1 small2 0 tlen s d t (omega arith) l b g)
          (λ s h k. (omega arith, omega arith, omega arith, omega arith)) (omega arith)
          (length bytes) (length bytes) (unpack 1) bytes (adler_from 1 0 bytes) (omega arith) refl
          bs (Follows-start 65850 1048560 5550 small1 small2 (omega arith) bytes) in
      let e0 : f.first ≡ (adler_from 1 0 bytes).0 = ap (λ p. p.0) f.rest in
      let e1 : f.second ≡ (adler_from 1 0 bytes).1 = ap (λ p. p.1) f.rest in
      pack-wp _ (adler_from 1 0 bytes) (omega (arith, f.bound1)) (omega (arith, f.bound2))
        (omega (arith, f.low, e0)) (omega (arith, f.high, e1))

  plain-adler_of : adler32 bytes ≡ adler_of (adler_from 1 0 bytes)
  unfolding adler32 adler32_update adler_from Settles Reader grow
  plain-adler_of =
      let small1 : 65520 + 5552 * 255 < 2 ^ 32 = omega arith in
      let small2 : 65520 + grow 65520 5552 < 2 ^ 32 = omega (arith, grow_mod) in
      let f =
        Follows-blocks 65520 65520 5552 small1 small2 unrolled mod_both
          (Passes-unrolled 65520 65520 5552 small1 small2)
          (λ s h k. (omega arith, omega arith, omega arith, omega arith)) (omega arith)
          (length bytes) (length bytes) (unpack 1) bytes (adler_from 1 0 bytes) (omega arith) refl
          bs (Follows-start 65520 65520 5552 small1 small2 (omega arith) bytes) in
      let e0 : f.first ≡ (adler_from 1 0 bytes).0 = ap (λ p. p.0) f.rest in
      let e1 : f.second ≡ (adler_from 1 0 bytes).1 = ap (λ p. p.1) f.rest in
      pack-plain _ (adler_from 1 0 bytes) (omega (arith, f.bound1)) (omega (arith, f.bound2))
        (omega (arith, f.low, e0)) (omega (arith, f.high, e1))

-- Of any bytes, adler32_wp and adler32 compute the same checksum, with blocks of different lengths and
-- different reductions: the two sums of Adler-32 over numbers without bound, each modulo 65521.
pub adler32_wp-adler32 :
    (bytes : List ℕ)
    → All IsByte bytes
    → (adler32_wp bytes ≡ adler32 bytes) × (adler32 bytes ≡ adler_of (adler_from 1 0 bytes))
adler32_wp-adler32 bytes bs =
    (wp-adler_of bytes bs ∙ sym (plain-adler_of bytes bs), plain-adler_of bytes bs)
