-- ===== src/Serialization/Codec.antt =====
-- Encoders and decoders in sequence, and C strings, which the classes that are sent between servers
-- share.
-- A `const char *` is `none` where it is null, and else the characters before its NUL.
use hypertable.Base.{
  ℕ, zero, suc, ◌+◌, ◌^◌, ◌<◌, ◌≡◌, refl, sym, ◌∙◌, List, [], ◌∷◌, ◌++◌, append_assoc, arith, map,
  length, length-append, Option, none, some, All, ◌==◌, if◌then◌else◌, Bool,
}
use mathlib.Core.Path.{subst}
use hypertable.Serialization.{Result, ok, fault, ◌>>=◌, Cursor, Decoder}
use hypertable.Serialization.Reading.{ok-injective}
use hypertable.Serialization.Fixed.{
  encode_i8, decode_i8, encode_bool, decode_bool, encode_i16, decode_i16, encode_i32, decode_i32,
  encode_i64, decode_i64,
}
use hypertable.Serialization.Fixed.RoundTrip.{
  decode_i8-encode_i8, decode_bool-encode_bool, decode_i16-encode_i16, decode_i32-encode_i32,
  decode_i64-encode_i64,
}
use hypertable.Serialization.Vint.{encode_vi32, decode_vi32, encoded_length_vi32}
use hypertable.Serialization.Vint.RoundTrip.{decode_vi32-encode_vi32}
use hypertable.Serialization.Strings.{encode_vstr, decode_vstr, encoded_length_vstr}
use hypertable.Serialization.Strings.RoundTrip.{decode_vstr-encode_vstr}

-- One encoder after another.
infixr 4 ◌▸◌
unfoldable pub ◌▸◌ : Result (List ℕ) → Result (List ℕ) → Result (List ℕ)
e ▸ e' = e >>= λ bs. e' >>= λ cs. ok (bs ++ cs)

abbrev pub Cstring : Type 0
Cstring = Option (List ℕ)

-- `s ? s : ""`, as far as `strlen` and `memcpy` go.
abbrev pub chars : Cstring → List ℕ
chars none = []
chars (some s) = s

unfoldable pub encode_cstr : Cstring → Result (List ℕ)
encode_cstr s = encode_vstr (chars s)

unfoldable pub encoded_length_cstr : Cstring → ℕ
encoded_length_cstr s = encoded_length_vstr (length (chars s))

-- The characters that a pointer leads to.
unfoldable pub c_string : List ℕ → Result (List ℕ)
c_string [] = fault
c_string (b ∷ bs) = let rest = c_string bs in if b == 0 then ok [] else (rest >>= λ s. ok (b ∷ s))

-- `decode_vstr` to a `const char *`.
unfoldable pub decode_cstr : Decoder Cstring
decode_cstr c = do ((ptr, len), c1) ← decode_vstr c; s ← c_string ptr; ok (some s, c1)

-- No NUL among the characters, and not more of them than memory holds.
unfoldable pub IsText : Cstring → Type 0
IsText s = All (λ b. 0 < b) (chars s) × (length (chars s) + 1 < 2 ^ 64)

-- The encoder writes `size` bytes, from which the decoder reads `a` back, whatever is behind them, and
-- takes no more.
pub record RoundTrips {A : Type 0} (e : Result (List ℕ)) (n : ℕ) (d : Decoder A) (a : A)
    : Type 0 where
  pub bytes : List ℕ
  pub written : e ≡ ok bytes
  pub size : length bytes ≡ n
  pub back :
      (tail : List ℕ) (r : ℕ)
      → d (record { bytes = bytes ++ tail; remain = length bytes + r })
        ≡ ok (a, record { bytes = tail; remain = r })

module _ {A B : Type 0} where
  pub RoundTrips-▸ :
      {e e' : Result (List ℕ)} {n n' : ℕ} {d : Decoder A} {a : A} {b : B}
      (f : A × Cursor → Result (B × Cursor))
      → RoundTrips e n d a
      → RoundTrips e' n' (λ c. f (a, c)) b
      → RoundTrips (e ▸ e') (n + n') (λ c. d c >>= f) b
  unfolding ◌▸◌
  RoundTrips-▸ f t u = record {
    bytes = t.bytes ++ u.bytes;
    written = rw (t.written, u.written) refl;
    size = omega (arith, length-append t.bytes u.bytes, t.size, u.size);
    back = λ tail r.
        let regroup : length (t.bytes ++ u.bytes) + r ≡ length t.bytes + (length u.bytes + r) =
          omega (arith, length-append t.bytes u.bytes) in
        rw
          (
            append_assoc t.bytes u.bytes tail,
            regroup,
            t.back (u.bytes ++ tail) (length u.bytes + r),
          )
          (u.back tail r);
  }

  pub RoundTrips-map :
      {e : Result (List ℕ)} {n : ℕ} {d : Decoder A} {a : A} (g : A → B)
      → RoundTrips e n d a
      → RoundTrips e n (λ c. d c >>= λ x. ok (g x.0, x.1)) (g a)
  RoundTrips-map g t = record {
    bytes = t.bytes;
    written = t.written;
    size = t.size;
    back = λ tail r. rw (t.back tail r) refl;
  }

pub RoundTrips-i8 : (v : ℕ) → v < 2 ^ 8 → RoundTrips (ok (encode_i8 v)) 1 decode_i8 v
unfolding encode_i8
RoundTrips-i8 v h = record {
  bytes = encode_i8 v;
  written = refl;
  size = refl;
  back = λ tail r. decode_i8-encode_i8 v tail r h;
}

pub RoundTrips-bool : (b : Bool) → RoundTrips (ok (encode_bool b)) 1 decode_bool b
unfolding encode_bool
RoundTrips-bool b = record {
  bytes = encode_bool b;
  written = refl;
  size = refl;
  back = λ tail r. decode_bool-encode_bool b tail r;
}

pub RoundTrips-i16 : (v : ℕ) → v < 2 ^ 16 → RoundTrips (ok (encode_i16 v)) 2 decode_i16 v
unfolding encode_i16
RoundTrips-i16 v h = record {
  bytes = encode_i16 v;
  written = refl;
  size = refl;
  back = λ tail r. decode_i16-encode_i16 v tail r h;
}

pub RoundTrips-i32 : (v : ℕ) → v < 2 ^ 32 → RoundTrips (ok (encode_i32 v)) 4 decode_i32 v
unfolding encode_i32
RoundTrips-i32 v h = record {
  bytes = encode_i32 v;
  written = refl;
  size = refl;
  back = λ tail r. decode_i32-encode_i32 v tail r h;
}

pub RoundTrips-i64 : (v : ℕ) → v < 2 ^ 64 → RoundTrips (ok (encode_i64 v)) 8 decode_i64 v
unfolding encode_i64
RoundTrips-i64 v h = record {
  bytes = encode_i64 v;
  written = refl;
  size = refl;
  back = λ tail r. decode_i64-encode_i64 v tail r h;
}

-- What is written does not depend on what is behind it.
RoundTrips-intro :
    {A : Type 0} {e : Result (List ℕ)} {n : ℕ} {d : Decoder A} {a : A}
    → ((tail : List ℕ) (r : ℕ)
        → (bs : List ℕ) × (e ≡ ok bs)
          × (length bs ≡ n)
          × (d (record { bytes = bs ++ tail; remain = length bs + r })
              ≡ ok (a, record { bytes = tail; remain = r })))
    → RoundTrips e n d a
RoundTrips-intro {d} {a} h =
    let (bs, written, size, _) = h [] 0 in
    record {
      bytes = bs;
      written = written;
      size = size;
      back = λ tail r.
          let (cs, again, _, back) = h tail r in
          subst
            (λ (x : List ℕ).
              d (record { bytes = x ++ tail; remain = length x + r })
              ≡ ok (a, record { bytes = tail; remain = r }))
            (ok-injective (sym again ∙ written)) back;
    }

pub RoundTrips-vi32 :
    (v : ℕ) → v < 2 ^ 32 → RoundTrips (encode_vi32 v) (encoded_length_vi32 v) decode_vi32 v
RoundTrips-vi32 v h = RoundTrips-intro (λ tail r. decode_vi32-encode_vi32 v r tail h)

c_string-append : (s tail : List ℕ) → All (λ b. 0 < b) s → c_string (s ++ (0 ∷ tail)) ≡ ok s
unfolding c_string
c_string-append [] tail h = refl
c_string-append (b ∷ s) tail h = ground (arith, c_string-append s tail h.1, h.0)

pub RoundTrips-cstr :
    (s : Cstring)
    → IsText s
    → RoundTrips (encode_cstr s) (encoded_length_cstr s) decode_cstr (some (chars s))
unfolding IsText encode_cstr encoded_length_cstr decode_cstr
RoundTrips-cstr s h = RoundTrips-intro (λ tail r.
    let (bs, written, size, back) = decode_vstr-encode_vstr (chars s) tail r h.1 in
    (bs, written, size, rw (back, c_string-append (chars s) tail h.0) refl))

pub RoundTrips-size :
    {A : Type 0} {e : Result (List ℕ)} {n m : ℕ} {d : Decoder A} {a : A}
    → RoundTrips e n d a
    → n ≡ m
    → RoundTrips e m d a
RoundTrips-size t e = record {
  bytes = t.bytes;
  written = t.written;
  size = t.size ∙ e;
  back = t.back;
}

-- The loops over a sequence: every element is written, and as many are read as the count says.
module _ {A : Type 0} where
  unfoldable pub encode_each : (A → Result (List ℕ)) → List A → Result (List ℕ)
  encode_each encode [] = ok []
  encode_each encode (a ∷ xs) = encode a ▸ encode_each encode xs

  unfoldable pub decode_each : Decoder A → ℕ → Decoder (List A)
  decode_each decode zero c = ok ([], c)
  decode_each decode (suc n) c = do
    (a, c1) ← decode c
    (xs, c2) ← decode_each decode n c1
    ok (a ∷ xs, c2)

  unfoldable pub size_each : (A → ℕ) → List A → ℕ
  size_each size [] = 0
  size_each size (a ∷ xs) = size a + size_each size xs

  pub RoundTrips-each :
      (encode : A → Result (List ℕ)) (size : A → ℕ) (decode : Decoder A) (back : A → A)
      (P : A → Type 0) (xs : List A)
      → ((a : A) → P a → RoundTrips (encode a) (size a) decode (back a))
      → All P xs
      → RoundTrips
          (encode_each encode xs)
          (size_each size xs)
          (decode_each decode (length xs))
          (map back xs)
  unfolding encode_each decode_each size_each
  RoundTrips-each encode size decode back P [] h all = record {
    bytes = [];
    written = refl;
    size = refl;
    back = λ tail r. ground arith;
  }
  RoundTrips-each encode size decode back P (a ∷ xs) h all =
      RoundTrips-▸ _ (h a all.0)
        (RoundTrips-map _ (RoundTrips-each encode size decode back P xs h all.1))
