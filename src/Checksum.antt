-- ===== src/Checksum.antt =====
-- src/cc/Common/Checksum.cc: `fletcher32`; Adler has the other checksums.
-- The sums are 32-bit words. The bytes are below 256, so `|` of a high and a low byte is their sum.
pub mod Bounds
pub mod Adler
pub mod AdlerSums
mod Tests
use hypertable.Base.{
  ℕ, zero, suc, ◌+◌, ◌-◌, ◌*◌, ◌/◌, ◌%◌, ◌^◌, List, [], ◌∷◌, ltb, ◌==◌, if◌then◌else◌, length,
}

pub record Sums : Type 0 where
  pub sum1 : ℕ
  pub sum2 : ℕ

abbrev pub wrap : ℕ → ℕ
wrap n = n % 2 ^ 32

-- `HT_F32_DO1` with the two bytes as one number.
unfoldable pub do1 : Sums → ℕ → Sums
do1 s word = let sum1 = wrap (s.sum1 + word) in record { sum1 = sum1; sum2 = wrap (s.sum2 + sum1) }

-- So many words of the data, and where the pointer stands then.
unfoldable pub words : ℕ → Sums → List ℕ → Sums × List ℕ
words (suc n) s (x ∷ y ∷ d) = words n (do1 s (x * 256 + y)) d
words n s d = (s, d)

-- `while (tlen >= 16)`: `HT_F32_DO16` at a time.
unfoldable pub sixteens : ℕ → Sums → List ℕ → Sums × List ℕ
sixteens zero s d = (s, d)
sixteens (suc k) s d = let (s', d') = words 16 s d in sixteens k s' d'

unfoldable pub reduce : Sums → Sums
reduce s = record { sum1 = s.sum1 % 65536 + s.sum1 / 65536; sum2 = s.sum2 % 65536 + s.sum2 / 65536 }

abbrev pub block_length : ℕ → ℕ
block_length len = if ltb 360 len then 360 else len

-- The body of the outer loop.
unfoldable pub block : ℕ → Sums → List ℕ → Sums × List ℕ
block tlen s d =
    let (s1, d1) = sixteens (tlen / 16) s d in
    let (s2, d2) = words (tlen % 16) s1 d1 in (reduce s2, d2)

-- `while (len)`, with fuel.
unfoldable pub blocks : ℕ → ℕ → Sums → List ℕ → Sums × List ℕ
blocks zero len s d = (s, d)
blocks (suc fuel) len s d =
    let (s', d') = block (block_length len) s d in
    let rest = blocks fuel (len - block_length len) s' d' in if len == 0 then (s, d) else rest

-- An odd byte at the end.
unfoldable pub odd_byte : Sums → List ℕ → Sums
odd_byte s [] = s
odd_byte s (x ∷ d) = reduce (do1 s (x * 256))

unfoldable pub fletcher32 : List ℕ → ℕ
fletcher32 bytes =
    let (s, d) =
      blocks (length bytes) (length bytes / 2) (record { sum1 = 0xffff; sum2 = 0xffff }) bytes in
    let r = reduce (if length bytes % 2 == 1 then odd_byte s d else s) in
    wrap (r.sum2 * 65536) + r.sum1
