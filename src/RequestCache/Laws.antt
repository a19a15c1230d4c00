-- ===== src/RequestCache/Laws.antt =====
-- What the methods do to one another's requests.
use hypertable.Base.{
  ℕ, ◌≡◌, ◌≢◌, inl, inr, refl, ap, Bool, true, false, Bool-cases, List, [], ◌∷◌, ◌++◌, none, some,
  arith, ◌==◌, if◌then◌else◌,
}
use hypertable.RequestCache.{
  CacheNode, has_id, insert, remove, Timeout, expired, wait_until, wait_for_none, get_next_timeout,
  purge_requests,
}

-- No two requests have one id.
unfoldable pub IsValid : {T : Type 0} → List (CacheNode T) → Type 0
IsValid [] = Unit
IsValid (n ∷ ns) = (has_id n.id ns ≡ false) × IsValid ns

module _ {T : Type 0} where
  remove-append :
      (id : ℕ) (c : List (CacheNode T)) (n : CacheNode T)
      → n.id ≡ id
      → has_id id c ≡ false
      → remove id (c ++ (n ∷ [])) ≡ (n.dh, c)
  unfolding remove has_id
  remove-append id [] n e h = ground arith
  remove-append id (m ∷ c) n e h = ground (arith, remove-append id c n e)

  -- A request that `insert` took, which it does exactly if the id is not there yet, comes back from
  -- `remove`, and then the cache is as before.
  pub remove-insert :
      (id handler dh : ℕ) (expire : T) (c : List (CacheNode T))
      → (has_id id c ≡ false
          → (c' : List (CacheNode T)) × (insert id handler dh expire c ≡ some c')
            × (remove id c' ≡ (dh, c)))
        × (has_id id c ≡ true → insert id handler dh expire c ≡ none)
  unfolding insert
  remove-insert id handler dh expire c = (
    λ h. (
      _,
      rw h refl,
      remove-append id c (record { expire = expire; id = id; handler = handler; dh = dh }) refl h,
    ),
    λ h. rw h refl,
  )

  has_id-append :
      (i : ℕ) (c : List (CacheNode T)) (n : CacheNode T)
      → has_id i (c ++ (n ∷ [])) ≡ (if n.id == i then true else has_id i c)
  unfolding has_id
  has_id-append i [] n = refl
  has_id-append i (m ∷ c) n = ground (arith, has_id-append i c n)

  has_id-remove :
      (i id : ℕ) (c : List (CacheNode T)) → has_id i c ≡ false → has_id i (remove id c).1 ≡ false
  unfolding has_id remove
  has_id-remove i id [] h = refl
  has_id-remove i id (m ∷ c) h = elim (Bool-cases (m.id == id)) [
    | inl e ↦ rw e (ground arith)
    | inr e ↦ rw e (ground (arith, has_id-remove i id c))
  ]

  has_id-purge_requests :
      (i handler : ℕ) (c : List (CacheNode T)) → has_id i (purge_requests handler c).1 ≡ has_id i c
  unfolding has_id purge_requests
  has_id-purge_requests i handler [] = refl
  has_id-purge_requests i handler (m ∷ c) = elim (Bool-cases (m.handler == handler)) [
    | inl e ↦ rw (e, has_id-purge_requests i handler c) refl
    | inr e ↦ rw (e, has_id-purge_requests i handler c) refl
  ]

  remove-IsValid : (id : ℕ) (c : List (CacheNode T)) → IsValid c → IsValid (remove id c).1
  unfolding IsValid remove
  remove-IsValid id [] v = v
  remove-IsValid id (m ∷ c) v = elim (Bool-cases (m.id == id)) [
    | inl e ↦ rw e v.1
    | inr e ↦ rw e (has_id-remove m.id id c v.0, remove-IsValid id c v.1)
  ]

  purge_requests-IsValid :
      (handler : ℕ) (c : List (CacheNode T)) → IsValid c → IsValid (purge_requests handler c).1
  unfolding IsValid purge_requests
  purge_requests-IsValid handler [] v = v
  purge_requests-IsValid handler (m ∷ c) v = elim (Bool-cases (m.handler == handler)) [
    | inl e ↦
        rw e (rw (has_id-purge_requests m.id handler c) v.0, purge_requests-IsValid handler c v.1)
    | inr e ↦
        rw e (rw (has_id-purge_requests m.id handler c) v.0, purge_requests-IsValid handler c v.1)
  ]

  get_next_timeout-IsValid :
      (is_due : T → T → Bool) (now : T) (c : List (CacheNode T))
      → IsValid c
      → IsValid (get_next_timeout is_due now c).1
  unfolding IsValid get_next_timeout
  get_next_timeout-IsValid is_due now [] v = v
  get_next_timeout-IsValid is_due now (m ∷ c) v = elim (Bool-cases (is_due m.expire now)) [
    | inl e ↦ elim (Bool-cases (m.handler == 0)) [
      | inl z ↦ rw (e, z) (get_next_timeout-IsValid is_due now c v.1)
      | inr z ↦ rw (e, z) v.1
    ]
    | inr e ↦ rw e v
  ]

  append-IsValid :
      (c : List (CacheNode T)) (n : CacheNode T)
      → has_id n.id c ≡ false
      → IsValid c
      → IsValid (c ++ (n ∷ []))
  unfolding IsValid has_id
  append-IsValid [] n h v = (refl, tt)
  append-IsValid (m ∷ c) n h v =
      (ground (arith, has_id-append m.id c n, v.0), append-IsValid c n (ground arith) v.1)

  insert-IsValid :
      (id handler dh : ℕ) (expire : T) (c c' : List (CacheNode T))
      → IsValid c
      → insert id handler dh expire c ≡ some c'
      → IsValid c'
  unfolding insert
  insert-IsValid id handler dh expire c c' v h = elim (Bool-cases (has_id id c)) [
    | inl e ↦ ground arith
    | inr e ↦
        let same : c ++ (record { expire = expire; id = id; handler = handler; dh = dh } ∷ [])
            ≡ c' =
          ground arith in
        rw⁻¹ same
          (append-IsValid c (record { expire = expire; id = id; handler = handler; dh = dh }) e v)
  ]

  -- Where no two requests have one id, no two have one behind any of the methods.
  pub methods-IsValid :
      (is_due : T → T → Bool) (id handler dh : ℕ) (time : T) (c : List (CacheNode T))
      → IsValid c
      → ((c' : List (CacheNode T)) → insert id handler dh time c ≡ some c' → IsValid c')
        × IsValid (remove id c).1
        × IsValid (get_next_timeout is_due time c).1
        × IsValid (purge_requests handler c).1
  methods-IsValid is_due id handler dh time c v = (
    λ c' h. insert-IsValid id handler dh time c c' v h,
    remove-IsValid id c v,
    get_next_timeout-IsValid is_due time c v,
    purge_requests-IsValid handler c v,
  )

  -- Once the requests of a handler have been purged, no timeout is reported for it, at any time.
  pub get_next_timeout-purge_requests :
      (is_due : T → T → Bool) (now : T) (handler dh : ℕ) (c : List (CacheNode T))
      → handler ≢ 0
      → (get_next_timeout is_due now (purge_requests handler c).1).0 ≢ expired handler dh
  unfolding get_next_timeout purge_requests
  get_next_timeout-purge_requests is_due now handler dh [] h = λ e. cc
  get_next_timeout-purge_requests is_due now handler dh (m ∷ c) h =
      let later = get_next_timeout-purge_requests is_due now handler dh c h in
      elim (Bool-cases (m.handler == handler)) [
        | inl e ↦ rw e (elim (Bool-cases (is_due m.expire now)) [
          | inl d ↦ rw d later
          | inr d ↦ rw d (λ x. cc)
        ])
        | inr e ↦ rw e (elim (Bool-cases (is_due m.expire now)) [
          | inl d ↦ elim (Bool-cases (m.handler == 0)) [
            | inl z ↦ rw (d, z) later
            | inr z ↦ rw (d, z) (λ x. ground arith)
          ]
          | inr d ↦ rw d (λ x. cc)
        ])
      ]

  -- Requests that time out unnoticed, because their handler was purged.
  pub AllPast : (T → T → Bool) → T → List (CacheNode T) → Type 0
  AllPast is_due now [] = Unit
  AllPast is_due now (n ∷ ns) =
      (is_due n.expire now ≡ true) × (n.handler ≡ 0) × AllPast is_due now ns

  -- What the answer says of the requests that are looked at, and of those that are left.
  pub Answers : (T → T → Bool) → T → Timeout T → List (CacheNode T) → List (CacheNode T) → Type 0
  Answers is_due now (expired handler dh) back left =
      (n : CacheNode T) × (back ≡ n ∷ left)
      × (is_due n.expire now ≡ true)
      × (n.handler ≡ handler)
      × (handler ≢ 0)
      × (n.dh ≡ dh)
  Answers is_due now (wait_until time) back left =
      (n : CacheNode T) × (ns : List (CacheNode T)) × (back ≡ n ∷ ns)
      × (left ≡ back)
      × (n.expire ≡ time)
      × (is_due n.expire now ≡ false)
  Answers is_due now wait_for_none back left = (back ≡ []) × (left ≡ [])

  -- `get_next_timeout` drops the purged requests at the front that are due. Of what is behind them, it
  -- reports and takes the first if that is due, and else says when it will be, if there is one.
  pub get_next_timeout-Answers :
      (is_due : T → T → Bool) (now : T) (c : List (CacheNode T))
      → (front : List (CacheNode T)) × (back : List (CacheNode T)) × (c ≡ front ++ back)
        × AllPast is_due now front
        × Answers is_due now
            (get_next_timeout is_due now c).0
            back
            (get_next_timeout is_due now c).1
  unfolding get_next_timeout AllPast Answers
  get_next_timeout-Answers is_due now [] = ([], [], refl, tt, (refl, refl))
  get_next_timeout-Answers is_due now (m ∷ c) = elim (Bool-cases (is_due m.expire now)) [
    | inl d ↦ elim (Bool-cases (m.handler == 0)) [
      | inl z ↦
          let (front, back, same, past, answer) = get_next_timeout-Answers is_due now c in
          (m ∷ front, back, ap (λ x. m ∷ x) same, (d, ground arith, past), rw (d, z) answer)
      | inr z ↦ ([], m ∷ c, refl, tt, rw (d, z) (m, refl, d, refl, ground arith, refl))
    ]
    | inr d ↦ ([], m ∷ c, refl, tt, rw d (m, c, refl, refl, refl, d))
  ]
