-- ===== src/RequestCache/Tests.antt =====
-- Requests of two handlers, with numbers for the time.
use hypertable.Base.{ℕ, ◌+◌, ◌≡◌, refl, List, [], ◌∷◌, ◌++◌, leb}
use hypertable.RequestCache.{CacheNode, has_id, expired, get_next_timeout, purge_requests}
use hypertable.RequestCache.Laws.{IsValid, AllPast, Answers, get_next_timeout-Answers}

abbrev request : ℕ → ℕ → ℕ → CacheNode ℕ
request id handler expire = record { expire = expire; id = id; handler = handler; dh = id + 100 }

-- The first was purged.
abbrev three_requests : List (CacheNode ℕ)
three_requests = request 1 0 10 ∷ request 2 5 20 ∷ request 3 6 30 ∷ []

second_expires : get_next_timeout leb 25 three_requests ≡ (expired 5 102, request 3 6 30 ∷ [])
unfolding get_next_timeout
second_expires = refl

third_is_told :
    purge_requests 6 three_requests
    ≡ (103 ∷ [], request 1 0 10 ∷ request 2 5 20 ∷ request 3 0 30 ∷ [])
unfolding purge_requests
third_is_told = refl

three_requests-IsValid : IsValid three_requests
unfolding IsValid has_id
three_requests-IsValid = (refl, (refl, (refl, tt)))

get_next_timeout-Answers_example :
    (front : List (CacheNode ℕ)) × (back : List (CacheNode ℕ)) × (three_requests ≡ front ++ back)
    × AllPast leb 25 front
    × Answers leb 25
        (get_next_timeout leb 25 three_requests).0
        back
        (get_next_timeout leb 25 three_requests).1
get_next_timeout-Answers_example = get_next_timeout-Answers leb 25 three_requests
