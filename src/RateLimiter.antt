-- ===== src/RateLimiter.antt =====
-- src/gateway/interceptors.cpp, FixedWindowRateLimiter: at most so many requests in each window of
-- one second. Times are nanoseconds of the steady clock.
use range_vec_kv.Base.{
  ℕ, suc, ◌≡◌, ◌≤◌, ◌<◌, ◌+◌, ◌-◌, ◌%◌, ◌^◌, min, leb, ap, ◌∙◌, Bool, true, false, List, [], ◌∷◌,
  All, length, if◌then◌else◌, arith, Bool-cases, inl, inr,
}

pub record Limiter : Type 0 where
  pub max_requests : ℕ
  pub request_count : ℕ
  pub window_start : ℕ

abbrev pub one_second : ℕ
one_second = 1000000000

-- A request at `now` begins a new window if the last one is a second old.
unfoldable pub renew : ℕ → Limiter → Limiter
renew now l =
    if leb (l.window_start + one_second) now
    then record l { request_count = 0; window_start = now }
    else l

unfoldable pub admit : Limiter → Bool × Limiter
admit l =
    if leb l.max_requests l.request_count
    then (false, l)
    else (true, record l { request_count = suc l.request_count % 2 ^ 64 })

-- Allow(), at the time `now`
unfoldable pub allow : ℕ → Limiter → Bool × Limiter
allow now l = admit (renew now l)

-- How many of the requests at these times are allowed.
unfoldable pub allowed : List ℕ → Limiter → ℕ
allowed [] l = 0
allowed (now ∷ later) l =
    let n = allowed later (allow now l).1 in if (allow now l).0 then suc n else n

renew_early : (now : ℕ) (l : Limiter) → now < l.window_start + one_second → renew now l ≡ l
unfolding renew
renew_early now l h = ground arith

admit_full : (l : Limiter) → l.max_requests ≤ l.request_count → admit l ≡ (false, l)
unfolding admit
admit_full l h = ground arith

admit_room :
    (l : Limiter)
    → l.request_count < l.max_requests
    → l.max_requests < 2 ^ 64
    → admit l ≡ (true, record l { request_count = suc l.request_count })
unfolding admit
admit_room l h m = ground arith

leb_le : (a b : ℕ) → leb a b ≡ true → a ≤ b
leb_le a b h = ground arith

leb_lt : (a b : ℕ) → leb a b ≡ false → b < a
leb_lt a b h = ground arith

-- Within a window the requests are allowed until the limit is reached, and no more.
allowed-window :
    (later : List ℕ) (l : Limiter)
    → All (λ t. t < l.window_start + one_second) later
    → l.request_count ≤ l.max_requests
    → l.max_requests < 2 ^ 64
    → allowed later l ≡ min (length later) (l.max_requests - l.request_count)
unfolding allowed allow
allowed-window [] l h c m = omega arith
allowed-window (now ∷ later) l h c m = elim (Bool-cases (leb l.max_requests l.request_count)) [
  | inl full ↦
      let le : l.max_requests ≤ l.request_count = leb_le l.max_requests l.request_count full in
      rw (renew_early now l h.0, admit_full l le)
        (allowed-window later l h.1 c m ∙ omega (arith, le))
  | inr room ↦
      let lt : l.request_count < l.max_requests = leb_lt l.max_requests l.request_count room in
      rw (renew_early now l h.0, admit_room l lt m)
        (ap suc (allowed-window later (record l { request_count = suc l.request_count }) h.1 lt m)
          ∙ omega (arith, lt))
]

renew_late :
    (now : ℕ) (l : Limiter)
    → l.window_start + one_second ≤ now
    → renew now l ≡ record l { request_count = 0; window_start = now }
unfolding renew
renew_late now l h = ground arith

-- Of a request that comes a second or more after its window began and the requests of less than a
-- second after it, whatever happened before, as many are allowed as the limit says, or all of them
-- if they are fewer. (The limit fits 64 bits and is not zero.)
pub allowed-burst :
    (now : ℕ) (later : List ℕ) (l : Limiter)
    → l.window_start + one_second ≤ now
    → All (λ t. t < now + one_second) later
    → 0 < l.max_requests
    → l.max_requests < 2 ^ 64
    → allowed (now ∷ later) l ≡ min (suc (length later)) l.max_requests
unfolding allowed allow
allowed-burst now later l h late p m =
    rw (renew_late now l h, admit_room (record l { request_count = 0; window_start = now }) p m)
      (ap suc (allowed-window later (record l { request_count = 1; window_start = now }) late p m)
        ∙ omega (arith, p))
