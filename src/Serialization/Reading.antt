-- ===== src/Serialization/Reading.antt =====
-- Rules for `Reads`: a decoder stays inside the memory that its cursor promises.
use hypertable.Base.{
  ℕ, zero, suc, ◌≤◌, ◌≡◌, refl, Bool, true, false, List, [], ◌∷◌, arith, length, if◌then◌else◌,
}
use hypertable.Serialization.{
  Result, ok, err, fault, ◌>>=◌, Cursor, need, next_byte, IsValid, IsBehind, Reads,
}

pub Reads-IsBehind {ℓ} :
    {A : Type ℓ} (P : A → Type 0) (c c' : Cursor) (r : Result (A × Cursor))
    → IsBehind c c'
    → Reads P c' r
    → Reads P c r
Reads-IsBehind P c c' (ok (a, d)) h k = (omega arith, k.1)
Reads-IsBehind P c c' (err e) h k = tt
Reads-IsBehind P c c' fault h k = k

pub Reads-if {ℓ} :
    {A : Type ℓ} (P : A → Type 0) (c : Cursor) (b : Bool) (x y : Result (A × Cursor))
    → (b ≡ true → Reads P c x)
    → (b ≡ false → Reads P c y)
    → Reads P c (if b then x else y)
Reads-if P c true x y h k = h refl
Reads-if P c false x y h k = k refl

pub Reads->>= {ℓ κ} :
    {A : Type ℓ} {B : Type κ} (P : A → Type 0) (Q : B → Type 0) (c : Cursor)
    (m : Result (A × Cursor)) (f : A × Cursor → Result (B × Cursor))
    → IsValid c
    → Reads P c m
    → ((a : A) (c' : Cursor) → IsValid c' → P a → Reads Q c' (f (a, c')))
    → Reads Q c (m >>= f)
Reads->>= P Q c (ok (a, c')) f v h k =
    Reads-IsBehind Q c c' (f (a, c')) h.0 (k a c' (omega arith) h.1)
Reads->>= P Q c (err e) f v h k = tt
Reads->>= P Q c fault f v h k = absurd h

need_one :
    (b n : ℕ) (bs : List ℕ)
    → need 1 (record { bytes = b ∷ bs; remain = suc n })
      ≡ ok (record { bytes = b ∷ bs; remain = n })
unfolding need
need_one b n bs = ground arith

byte_Reads {ℓ} :
    {A : Type ℓ} (P : A → Type 0) (bs : List ℕ) (n : ℕ) (f : ℕ × Cursor → Result (A × Cursor))
    → n ≤ length bs
    → ((b : ℕ) (c' : Cursor) → IsValid c' → Reads P c' (f (b, c')))
    → Reads P
        (record { bytes = bs; remain = n })
        (need 1 (record { bytes = bs; remain = n }) >>= λ c1. next_byte c1 >>= f)
unfolding need next_byte
byte_Reads P bs zero f h k = tt
byte_Reads P [] (suc n) f h k = absurd (omega arith)
byte_Reads P (b ∷ bs) (suc n) f h k = rw (need_one b n bs) (
    Reads-IsBehind P (record { bytes = b ∷ bs; remain = suc n }) (record { bytes = bs; remain = n })
      _ (omega arith) (k b _ (omega arith)))

-- One byte, and whatever follows it.
pub Reads-byte {ℓ} :
    {A : Type ℓ} (P : A → Type 0) (c : Cursor) (f : ℕ × Cursor → Result (A × Cursor))
    → IsValid c
    → ((b : ℕ) (c' : Cursor) → IsValid c' → Reads P c' (f (b, c')))
    → Reads P c (need 1 c >>= λ c1. next_byte c1 >>= f)
Reads-byte P c f v k = byte_Reads P c.bytes c.remain f v k

pub ok-injective {ℓ} : {A : Type ℓ} {a b : A} → ok a ≡ ok b → a ≡ b
ok-injective e = cc

-- What a chain that returns has passed.
pub >>=-eq-ok {ℓ κ} :
    {A : Type ℓ} {C : Type κ} (head : Result A) (next : A → Result C) {last : C}
    → (head >>= next) ≡ ok last
    → (value : A) × (head ≡ ok value) × (next value ≡ ok last)
>>=-eq-ok fault next e = cc
>>=-eq-ok (err why) next e = cc
>>=-eq-ok (ok value) next e = (value, refl, e)
