-- ===== src/Deletes/Newest.antt =====
-- What the tracked deletes say of the cells that are still to come.
use hypertable.Base.{
  ℕ, ◌≡◌, inl, inr, refl, sym, ap, ◌∙◌, Bool, true, false, Bool-cases, ◌&&◌, List, [], ◌∷◌, Option,
  none, some, arith, ltb, ◌==◌, if◌then◌else◌, All,
}
use hypertable.ByteString.Order.{lex_refl, lex-eq}
use hypertable.Deletes.{CellKey, Deleted, none_deleted, same, note_delete, clear}

pub same-eq : (p q : List ℕ) → same p q ≡ true → p ≡ q
unfolding same
same-eq p q h = lex-eq p q (ground arith)

pub same_refl : (p : List ℕ) → same p p ≡ true
unfolding same
same_refl p = rw (lex_refl p) refl

-- The later of a time and those found before.
abbrev pub latest : ℕ → Option ℕ → ℕ
latest t none = t
latest t (some u) = if ltb u t then t else u

module _ (bytes : CellKey → List ℕ) (flag : ℕ) where
  -- The timestamp of the newest delete of these bytes among the cells.
  unfoldable pub newest : List ℕ → List CellKey → Option ℕ
  newest b [] = none
  newest b (k ∷ ks) =
      let rest = newest b ks in
      if (k.flag == flag) && same (bytes k) b then some (latest k.timestamp rest) else rest

  -- What the buffer says of these bytes.
  unfoldable pub told : Deleted → List ℕ → Option ℕ
  told d b = if same d.buffer b then some d.time else none

  -- The buffer tells the newest delete among the cells `past`, for each that is still to come.
  unfoldable pub Knows : Deleted → List CellKey → List CellKey → Type 0
  Knows d past [] = Unit
  Knows d past (q ∷ qs) = (newest (bytes q) past ≡ told d (bytes q)) × Knows d past qs

  -- Those with the bytes come first.
  unfoldable pub Leads : List ℕ → List CellKey → Type 0
  Leads b [] = Unit
  Leads b (k ∷ ks) =
      (same b (bytes k) ≡ false → All (λ q. same b (bytes q) ≡ false) ks) × Leads b ks

  -- Cells of the same bytes are next to one another.
  unfoldable pub Groups : List CellKey → Type 0
  Groups [] = Unit
  Groups (k ∷ ks) = Leads (bytes k) ks × Groups ks

  pub Knows-nothing :
      ((q : CellKey) → same [] (bytes q) ≡ false) → (qs : List CellKey) → Knows none_deleted [] qs
  unfolding Knows newest told
  Knows-nothing e [] = tt
  Knows-nothing e (q ∷ qs) = (rw (e q) refl, Knows-nothing e qs)

  pub Knows-other :
      (d : Deleted) (k : CellKey) (past qs : List CellKey)
      → (k.flag == flag) ≡ false
      → Knows d past qs
      → Knows d (k ∷ past) qs
  unfolding Knows newest
  Knows-other d k past [] h a = tt
  Knows-other d k past (q ∷ qs) h a = (rw h a.0, Knows-other d k past qs h a.1)

  -- A buffer that matches none of the cells to come can as well be empty.
  pub Knows-clear :
      (d : Deleted) (past qs : List CellKey)
      → All (λ q. same d.buffer (bytes q) ≡ false) qs
      → ((q : CellKey) → same [] (bytes q) ≡ false)
      → Knows d past qs
      → Knows (clear d) past qs
  unfolding Knows told
  Knows-clear d past [] apart e a = tt
  Knows-clear d past (q ∷ qs) apart e a =
      (ground (arith, apart.0, e q, a.0), Knows-clear d past qs apart.1 e a.1)

  newest_replace :
      (d : Deleted) (k q : CellKey) (past : List CellKey)
      → (k.flag == flag) ≡ true
      → newest (bytes k) past ≡ none
      → newest (bytes q) past ≡ told d (bytes q)
      → same d.buffer (bytes q) ≡ false
      → newest (bytes q) (k ∷ past)
        ≡ told (record { buffer = bytes k; time = k.timestamp }) (bytes q)
  unfolding newest told
  newest_replace d k q past f e a apart = elim (Bool-cases (same (bytes k) (bytes q))) [
    | inl h ↦
        let past_none : newest (bytes q) past ≡ none =
          ap (λ b. newest b past) (sym (same-eq (bytes k) (bytes q) h)) ∙ e in
        rw (f, h, past_none) refl
    | inr h ↦ rw (f, h, a, apart) refl
  ]

  -- A delete of other bytes takes the place.
  Knows-replace :
      (d : Deleted) (k : CellKey) (past qs : List CellKey)
      → (k.flag == flag) ≡ true
      → newest (bytes k) past ≡ none
      → All (λ q. same d.buffer (bytes q) ≡ false) qs
      → Knows d past qs
      → Knows (record { buffer = bytes k; time = k.timestamp }) (k ∷ past) qs
  unfolding Knows
  Knows-replace d k past [] f e apart a = tt
  Knows-replace d k past (q ∷ qs) f e apart a =
      (newest_replace d k q past f e a.0 apart.0, Knows-replace d k past qs f e apart.1 a.1)

  -- A delete of the same bytes may make the timestamp later.
  Knows-later :
      (d : Deleted) (k : CellKey) (past qs : List CellKey)
      → (k.flag == flag) ≡ true
      → d.buffer ≡ bytes k
      → Knows d past qs
      → Knows (if ltb d.time k.timestamp then record d { time = k.timestamp } else d) (k ∷ past) qs
  unfolding Knows newest told
  Knows-later d k past [] f e a = tt
  Knows-later d k past (q ∷ qs) f e a =
      (ground (arith, f, a.0, ap (λ b. same b (bytes q)) e), Knows-later d k past qs f e a.1)

  -- `note_delete` keeps track.
  pub Knows-note_delete :
      (present : Bool) (d : Deleted) (k : CellKey) (past qs : List CellKey)
      → (k.flag == flag) ≡ true
      → (present ≡ false → d.buffer ≡ [])
      → ((q : CellKey) → same [] (bytes q) ≡ false)
      → Leads d.buffer (k ∷ qs)
      → Knows d past (k ∷ qs)
      → Knows (note_delete present (bytes k) k.timestamp d) (k ∷ past) qs
  unfolding note_delete Leads Knows told
  Knows-note_delete present d k past qs f empty e leads a =
      elim (Bool-cases (present && same d.buffer (bytes k))) [
        | inl h ↦ rw h (Knows-later d k past qs f (same-eq d.buffer (bytes k) (ground arith)) a.1)
        | inr h ↦
            let apart : same d.buffer (bytes k) ≡ false = elim (Bool-cases present) [
              | inl p ↦ ground arith
              | inr p ↦ rw (empty p) (e k)
            ] in
            rw h (Knows-replace d k past qs f (a.0 ∙ rw apart refl) (leads.0 apart) a.1)
      ]
