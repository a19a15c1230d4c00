-- ===== src/Checksum/Adler.antt =====
-- src/cc/Common/Checksum.cc: `adler32_wp` and `adler32`. The variables are 32-bit words, and the bytes are
-- below 256.
use hypertable.Base.{
  ℕ, zero, suc, ◌+◌, ◌-◌, ◌*◌, ◌/◌, ◌%◌, List, ◌∷◌, ltb, leb, ◌==◌, if◌then◌else◌, length,
}
use hypertable.Checksum.{wrap}

abbrev pub mod_adler : ℕ
mod_adler = 65521

pub record Adler : Type 0 where
  pub a : ℕ
  pub b : ℕ

-- `a += *data++; b += a`.
unfoldable pub add_byte : Adler → ℕ → Adler
add_byte s byte = let a = wrap (s.a + byte) in record { a = a; b = wrap (s.b + a) }

-- So many bytes of the data, and where the pointer stands then.
unfoldable pub add_bytes : ℕ → Adler → List ℕ → Adler × List ℕ
add_bytes (suc n) s (x ∷ d) = add_bytes n (add_byte s x) d
add_bytes n s d = (s, d)

-- The two words of a checksum.
unfoldable pub unpack : ℕ → Adler
unpack adler = record { a = adler % 65536; b = adler / 65536 % 65536 }

unfoldable pub pack : Adler → ℕ
pack s = wrap (s.b * 65536) + s.a

-- `(x & 0xffff) + (x >> 16) * (65536 - MOD_ADLER)`.
unfoldable pub fold_high : ℕ → ℕ
fold_high x = x % 65536 + x / 65536 * (65536 - mod_adler)

-- `if (x >= MOD_ADLER) x -= MOD_ADLER`.
unfoldable pub subtract_once : ℕ → ℕ
subtract_once x = if leb mod_adler x then x - mod_adler else x

-- `while (len)`, with fuel, of blocks of at most `most` bytes; `settle` stands at the end of a block.
unfoldable pub adler_blocks :
    ℕ → (ℕ → Adler → List ℕ → Adler × List ℕ) → (Adler → Adler) → ℕ → ℕ → Adler → List ℕ → Adler
adler_blocks most run settle zero len s d = s
adler_blocks most run settle (suc fuel) len s d =
    let tlen = if ltb most len then most else len in
    let (s', d') = run tlen s d in
    let rest = adler_blocks most run settle fuel (len - tlen) (settle s') d' in
    if len == 0 then s else rest

abbrev pub fold_both : Adler → Adler
fold_both s = record { a = fold_high s.a; b = fold_high s.b }

abbrev pub mod_both : Adler → Adler
mod_both s = record { a = s.a % mod_adler; b = s.b % mod_adler }

unfoldable pub adler32_update_wp : ℕ → List ℕ → ℕ
adler32_update_wp adler bytes =
    let s =
      adler_blocks 5550 add_bytes fold_both (length bytes) (length bytes) (unpack adler) bytes in
    pack (record { a = subtract_once s.a; b = subtract_once (fold_high s.b) })

unfoldable pub adler32_wp : List ℕ → ℕ
adler32_wp bytes = adler32_update_wp 1 bytes

-- `HT_A32_DO16`, as often as there are 16 bytes.
unfoldable pub sixteen_bytes : ℕ → Adler → List ℕ → Adler × List ℕ
sixteen_bytes zero s d = (s, d)
sixteen_bytes (suc k) s d = let (s', d') = add_bytes 16 s d in sixteen_bytes k s' d'

-- A block with the two inner loops.
unfoldable pub unrolled : ℕ → Adler → List ℕ → Adler × List ℕ
unrolled tlen s d = let (s', d') = sixteen_bytes (tlen / 16) s d in add_bytes (tlen % 16) s' d'

unfoldable pub adler32_update : ℕ → List ℕ → ℕ
adler32_update adler bytes =
    pack (adler_blocks 5552 unrolled mod_both (length bytes) (length bytes) (unpack adler) bytes)

unfoldable pub adler32 : List ℕ → ℕ
adler32 bytes = adler32_update 1 bytes
