-- ===== src/Serialization/Vint/RoundTrip.antt =====
-- A variable-length integer is read back, and needs all of its bytes.
use hypertable.Base.{
  All, Bool-cases, inl, inr, sym, ◌∙◌, ℕ, zero, suc, ◌+◌, ◌*◌, ◌/◌, ◌%◌, ◌^◌, ◌≤◌, ◌<◌, ◌≡◌, List,
  [], ◌∷◌, ◌++◌, arith, leb, if◌then◌else◌, length, low_seven, top_bit, set_top_bit, IsByte,
  mod_small, split_seven, mod-mul-le,
}
use mathlib.Core.Path.{subst}
use hypertable.Serialization.Reading.{ok-injective}
use hypertable.Serialization.{ok, Cursor, need, next_byte}
use hypertable.Serialization.Vint.{
  encode_vint, encode_vi32, encode_vi64, decode_vint_rest, decode_vint, decode_vi32, decode_vi64,
  encoded_length_vi32, encoded_length_vi64,
}

-- The encoding in plain arithmetic: its first byte, and the bytes behind it, at most `k` of them.
abbrev pub first_group : ℕ → ℕ
first_group v = if leb v 127 then v else v % 128 + 128

unfoldable pub later_groups : ℕ → ℕ → List ℕ
later_groups zero v = []
later_groups (suc k) v =
    let rest = later_groups k (v / 128) in if leb v 127 then [] else first_group (v / 128) ∷ rest

encode_vint-groups :
    (k m v : ℕ) → k ≤ m → v < 128 ^ suc k → encode_vint m v ≡ ok (first_group v ∷ later_groups k v)
unfolding encode_vint later_groups
encode_vint-groups zero zero v hm h = ground (arith, low_seven (v % 256) (omega arith))
encode_vint-groups zero (suc m) v hm h = ground (arith, low_seven (v % 256) (omega arith))
encode_vint-groups (suc k) zero v hm h = absurd (omega arith)
encode_vint-groups (suc k) (suc m) v hm h = ground (
  arith,
  low_seven (v % 256) (omega arith),
  set_top_bit (v % 256) (omega arith),
  encode_vint-groups k m (v / 128) (omega arith) (omega arith),
)

rest_stops :
    (w k s prev v : ℕ) (c : Cursor) → prev < 128 → decode_vint_rest w (suc k) s prev v c ≡ ok (v, c)
unfolding decode_vint_rest
rest_stops w k s prev v c h = ground (arith, top_bit prev (omega arith))

rest_goes_on :
    (w k s prev v b g r : ℕ) (bs : List ℕ)
    → 128 ≤ prev
    → IsByte prev
    → IsByte b
    → b % 128 ≡ g
    → v + g * 2 ^ (s + 7) < 2 ^ w
    → decode_vint_rest w (suc k) s prev v (record { bytes = b ∷ bs; remain = suc r })
      ≡ decode_vint_rest w k (s + 7) b (v + g * 2 ^ (s + 7)) (record { bytes = bs; remain = r })
unfolding decode_vint_rest need next_byte
rest_goes_on w k s prev v b g r bs hp h hb hg fits =
    ground (arith, top_bit prev h, low_seven b hb, mod_small (v + g * 2 ^ (s + 7)) (2 ^ w))

first_group-IsByte : (v : ℕ) → IsByte (first_group v)
first_group-IsByte v = ground arith

first_group-mod : (v : ℕ) → first_group v % 128 ≡ v % 128
first_group-mod v = ground arith

-- One group is read, and the others wait.
rest_takes_group :
    (rounds w v acc s r : ℕ) (bs : List ℕ)
    → 127 < v
    → acc + v * 2 ^ s < 2 ^ w
    → decode_vint_rest w
        (suc rounds)
        s
        (first_group v)
        (acc + v % 128 * 2 ^ s)
        (record { bytes = first_group (v / 128) ∷ bs; remain = suc r })
      ≡ decode_vint_rest w rounds
          (s + 7)
          (first_group (v / 128))
          (acc + v % 128 * 2 ^ s + v / 128 % 128 * 2 ^ (s + 7))
          (record { bytes = bs; remain = r })
rest_takes_group rounds w v acc s r bs hv fits =
    rest_goes_on w rounds s (first_group v) (acc + v % 128 * 2 ^ s) (first_group (v / 128))
      (v / 128 % 128) r bs (ground arith) (first_group-IsByte v) (first_group-IsByte (v / 128))
      (first_group-mod (v / 128))
      (omega (arith, split_seven v s, mod-mul-le (v / 128) 128 (2 ^ (s + 7))))

-- `v` counts from bit `s` on, and `acc` holds the bits below.
rest-groups :
    (k rounds w v acc s r : ℕ) (tail : List ℕ)
    → v < 128 ^ suc k
    → k < rounds
    → acc + v * 2 ^ s < 2 ^ w
    → decode_vint_rest w rounds s
        (first_group v)
        (acc + v % 128 * 2 ^ s)
        (record { bytes = later_groups k v ++ tail; remain = length (later_groups k v) + r })
      ≡ ok (acc + v * 2 ^ s, record { bytes = tail; remain = r })
unfolding later_groups
rest-groups k zero w v acc s r tail hv hk fits = absurd (omega arith)
rest-groups zero (suc rounds) w v acc s r tail hv hk fits =
    ground (arith, rest_stops w rounds s v (acc + v * 2 ^ s) (record { bytes = tail; remain = r }))
rest-groups (suc k) (suc rounds) w v acc s r tail hv hk fits = ground (
  arith,
  rest_stops w rounds s v (acc + v * 2 ^ s) (record { bytes = tail; remain = r }),
  rest_takes_group rounds w v acc s (length (later_groups k (v / 128)) + r)
      (later_groups k (v / 128) ++ tail),
  rest-groups k rounds w (v / 128) (acc + v % 128 * 2 ^ s) (s + 7) r tail,
  split_seven v s,
)

decode_vint-groups :
    (k rounds w v r : ℕ) (tail : List ℕ)
    → v < 128 ^ suc k
    → k < rounds
    → v < 2 ^ w
    → decode_vint w rounds (record {
      bytes = first_group v ∷ later_groups k v ++ tail;
      remain = suc (length (later_groups k v)) + r;
    })
      ≡ ok (v, record { bytes = tail; remain = r })
unfolding decode_vint
decode_vint-groups k rounds w v r tail hv hk fits = ground (
  arith,
  low_seven (first_group v) (first_group-IsByte v),
  first_group-mod v,
  rest-groups k rounds w v 0 0 r tail,
)

length-later_groups_four :
    (v : ℕ) → v < 2 ^ 32 → suc (length (later_groups 4 v)) ≡ encoded_length_vi32 v
unfolding later_groups encoded_length_vi32
length-later_groups_four v h = ground arith

length-later_groups-le : (j k v : ℕ) → v < 128 ^ suc j → length (later_groups k v) ≤ j
unfolding later_groups
length-later_groups-le j zero v h = omega arith
length-later_groups-le zero (suc k) v h = ground arith
length-later_groups-le (suc j) (suc k) v h =
    ground (arith, length-later_groups-le j k (v / 128) (omega arith))

le-length-later_groups : (j k v : ℕ) → j ≤ k → 128 ^ j ≤ v → j ≤ length (later_groups k v)
unfolding later_groups
le-length-later_groups zero k v hk h = omega arith
le-length-later_groups (suc j) zero v hk h = absurd (omega arith)
le-length-later_groups (suc j) (suc k) v hk h =
    ground (arith, le-length-later_groups j k (v / 128) (omega arith) (omega arith), pow_pos j)
  where
    pow_pos : (j : ℕ) → 0 < 128 ^ j
    pow_pos zero = omega arith
    pow_pos (suc j) = omega (arith, pow_pos j)

length-later_groups_nine :
    (v : ℕ) → v < 2 ^ 64 → suc (length (later_groups 9 v)) ≡ encoded_length_vi64 v
unfolding encoded_length_vi64
length-later_groups_nine v h = ground (
  arith,
  length-later_groups-le 0 9 v,
  length-later_groups-le 1 9 v,
  length-later_groups-le 2 9 v,
  length-later_groups-le 3 9 v,
  length-later_groups-le 4 9 v,
  length-later_groups-le 5 9 v,
  length-later_groups-le 6 9 v,
  length-later_groups-le 7 9 v,
  length-later_groups-le 8 9 v,
  length-later_groups-le 9 9 v (omega arith),
  le-length-later_groups 1 9 v (omega arith),
  le-length-later_groups 2 9 v (omega arith),
  le-length-later_groups 3 9 v (omega arith),
  le-length-later_groups 4 9 v (omega arith),
  le-length-later_groups 5 9 v (omega arith),
  le-length-later_groups 6 9 v (omega arith),
  le-length-later_groups 7 9 v (omega arith),
  le-length-later_groups 8 9 v (omega arith),
  le-length-later_groups 9 9 v (omega arith),
)

-- On every 32-bit value `encode_vi32` does not reach its exception, writes as many bytes as
-- `encoded_length_vi32` says, and `decode_vi32` reads the value back from these bytes, whatever
-- stands behind them and however much of that the count allows, and takes no more.
pub decode_vi32-encode_vi32 :
    (v r : ℕ) (tail : List ℕ)
    → v < 2 ^ 32
    → (bs : List ℕ) × (encode_vi32 v ≡ ok bs)
      × (length bs ≡ encoded_length_vi32 v)
      × (decode_vi32 (record { bytes = bs ++ tail; remain = length bs + r })
          ≡ ok (v, record { bytes = tail; remain = r }))
unfolding encode_vi32 decode_vi32
decode_vi32-encode_vi32 v r tail h = (
  first_group v ∷ later_groups 4 v,
  encode_vint-groups 4 5 v (omega arith) (omega arith),
  length-later_groups_four v h,
  decode_vint-groups 4 5 32 v r tail (omega arith) (omega arith) (omega arith),
)

-- The same for 64 bits.
pub decode_vi64-encode_vi64 :
    (v r : ℕ) (tail : List ℕ)
    → v < 2 ^ 64
    → (bs : List ℕ) × (encode_vi64 v ≡ ok bs)
      × (length bs ≡ encoded_length_vi64 v)
      × (decode_vi64 (record { bytes = bs ++ tail; remain = length bs + r })
          ≡ ok (v, record { bytes = tail; remain = r }))
unfolding encode_vi64 decode_vi64
decode_vi64-encode_vi64 v r tail h = (
  first_group v ∷ later_groups 9 v,
  encode_vint-groups 9 10 v (omega arith) (omega arith),
  length-later_groups_nine v h,
  decode_vint-groups 9 10 64 v r tail (omega arith) (omega arith) (omega arith),
)

later_groups-pos : (k v : ℕ) → All (λ b. 0 < b) (later_groups k v)
unfolding later_groups
later_groups-pos zero v = tt
later_groups-pos (suc k) v = elim (Bool-cases (leb v 127)) [
  | inl last ↦ rw last tt
  | inr more ↦ rw more (ground arith, later_groups-pos k (v / 128))
]

-- No byte of a positive number's encoding is 0.
pub encode_vi32-pos :
    (v : ℕ) (bs : List ℕ) → 0 < v → v < 2 ^ 32 → encode_vi32 v ≡ ok bs → All (λ b. 0 < b) bs
unfolding encode_vi32
encode_vi32-pos v bs hv h e =
    let same : first_group v ∷ later_groups 4 v ≡ bs =
      ok-injective (sym (encode_vint-groups 4 5 v (omega arith) (omega arith)) ∙ e) in
    subst (All (λ b. 0 < b)) same (ground arith, later_groups-pos 4 v)
