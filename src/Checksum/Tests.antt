-- ===== src/Checksum/Tests.antt =====
-- The checksums at small inputs.
use hypertable.Base.{ℕ, ◌≡◌, refl, List, [], ◌∷◌, arith}
use hypertable.Checksum.{fletcher32, blocks, block, words, sixteens, do1, reduce, odd_byte}
use hypertable.Checksum.Adler.{
  adler32_wp, adler32, adler32_update_wp, adler_blocks, add_bytes, add_byte, unpack, pack,
  fold_high, subtract_once,
}
use hypertable.Checksum.AdlerSums.{adler_of, adler_from, adler32_wp-adler32}
use hypertable.Checksum.Bounds.{IsFletcher, fletcher32-IsFletcher, sums_from}

abbrev three_bytes : List ℕ
three_bytes = 0x61 ∷ 0x62 ∷ 0x63 ∷ []

fletcher32-IsFletcher_example :
    IsFletcher (fletcher32 three_bytes) (sums_from 0 0 three_bytes).0 (sums_from 0 0 three_bytes).1
fletcher32-IsFletcher_example = fletcher32-IsFletcher three_bytes (omega arith)

fletcher32_test : fletcher32 three_bytes ≡ 0x25c5c462
unfolding fletcher32 blocks block words sixteens do1 reduce odd_byte
fletcher32_test = refl

adler32_wp-adler32_example :
    (adler32_wp three_bytes ≡ adler32 three_bytes)
    × (adler32 three_bytes ≡ adler_of (adler_from 1 0 three_bytes))
adler32_wp-adler32_example = adler32_wp-adler32 three_bytes (omega arith)

adler32_test : adler32_wp three_bytes ≡ 0x024d0127
unfolding adler32_wp adler32_update_wp adler_blocks add_bytes add_byte unpack pack fold_high
    subtract_once
adler32_test = refl
