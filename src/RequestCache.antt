-- ===== src/RequestCache.antt =====
-- src/cc/AsyncComm/RequestCache.h and RequestCache.cc: the requests that wait for a response.
-- The linked nodes are a list from `m_head`, the oldest, along `prev` to `m_tail`, and the hash map
-- from ids to nodes is a search in it. An `IOHandler *` or `DispatchHandler *` is a number, and 0 is
-- the null pointer. `none` is a failed `HT_EXPECT`.
pub mod Laws
mod Tests
use hypertable.Base.{
  ℕ, Bool, true, false, List, [], ◌∷◌, ◌++◌, Option, none, some, ◌==◌, if◌then◌else◌,
}

-- `T` is `boost::xtime`.
pub record CacheNode (T : Type 0) : Type 0 where
  pub expire : T
  pub id : ℕ
  pub handler : ℕ
  pub dh : ℕ

unfoldable pub has_id : {T : Type 0} → ℕ → List (CacheNode T) → Bool
has_id id [] = false
has_id id (n ∷ ns) = if n.id == id then true else has_id id ns

-- `insert`.
unfoldable pub insert :
    {T : Type 0} → ℕ → ℕ → ℕ → T → List (CacheNode T) → Option (List (CacheNode T))
insert id handler dh expire c =
    if has_id id c
    then none
    else some (c ++ (record { expire = expire; id = id; handler = handler; dh = dh } ∷ []))

-- `remove`: the dispatch handler, or 0.
unfoldable pub remove : {T : Type 0} → ℕ → List (CacheNode T) → ℕ × List (CacheNode T)
remove id [] = (0, [])
remove id (n ∷ ns) =
    let (dh, rest) = remove id ns in if n.id == id then (n.dh, ns) else (dh, n ∷ rest)

-- What `get_next_timeout` comes back with: a request that has timed out, or when to look again, which
-- is never where it writes zeros.
pub data Timeout (T : Type 0) : Type 0 where
  expired : ℕ → ℕ → Timeout T
  wait_until : T → Timeout T
  wait_for_none : Timeout T

-- `get_next_timeout`, with `is_due expire now` for `xtime_cmp(expire, now) <= 0`.
unfoldable pub get_next_timeout :
    {T : Type 0} → (T → T → Bool) → T → List (CacheNode T) → Timeout T × List (CacheNode T)
get_next_timeout is_due now [] = (wait_for_none, [])
get_next_timeout is_due now (n ∷ ns) =
    let rest = get_next_timeout is_due now ns in
    if is_due n.expire now
    then (if n.handler == 0 then rest else (expired n.handler n.dh, ns))
    else (wait_until n.expire, n ∷ ns)

-- `purge_requests`, which starts at the tail: the dispatch handlers in the order in which they are
-- told, and the nodes.
unfoldable pub purge_requests : {T : Type 0} → ℕ → List (CacheNode T) → List ℕ × List (CacheNode T)
purge_requests handler [] = ([], [])
purge_requests handler (n ∷ ns) =
    let (told, rest) = purge_requests handler ns in
    if n.handler == handler
    then (told ++ (n.dh ∷ []), record n { handler = 0 } ∷ rest)
    else (told, n ∷ rest)
