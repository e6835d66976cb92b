-- ===== src/RateLimit.antt =====
-- application/rate_limit_service.py: the sliding window that limits the requests of a visitor. A
-- reading of the monotonic clock is a number of ticks, as is the length of the window.
pub mod Window
use aiops_control_lab.Base.{
  ℕ, ◌+◌, String, Bool, true, false, ◌||◌, Option, none, some, List, [], ◌∷◌, ◌++◌, Dict, lookup,
  insert, length, leb, ltb, nat_eq, Result, ok, err, value_error, if◌then◌else◌,
}

pub record Limiter : Type 0 where
  pub limit : ℕ
  pub window : ℕ
  -- the times at which the requests of a key were admitted, the oldest first
  pub requests : Dict (List ℕ)

-- `SlidingWindowRateLimiter(limit, window_seconds)`
unfoldable pub new_limiter : ℕ → ℕ → Result Limiter
new_limiter limit window =
    if ltb limit 1 || leb window 0
    then err value_error
    else ok (record { limit = limit; window = window; requests = [] })

-- `self._requests[key]`: a `defaultdict` gives an empty queue for a missing key.
unfoldable pub queue_of : String → Limiter → List ℕ
queue_of key l = elim (lookup key l.requests) [ none ↦ [] | some times ↦ times ]

-- `timestamps[0] <= boundary` for `boundary = current - window`, which may be negative
abbrev pub is_expired : ℕ → ℕ → ℕ → Bool
is_expired window current t = leb (t + window) current

-- `while timestamps and timestamps[0] <= boundary: timestamps.popleft()`
unfoldable pub drop_expired : ℕ → ℕ → List ℕ → List ℕ
drop_expired window current [] = []
drop_expired window current (t ∷ times) =
    if is_expired window current t then drop_expired window current times else t ∷ times

unfoldable pub allow : String → ℕ → Limiter → Bool × Limiter
unfolding queue_of drop_expired
allow key current l =
    let times = drop_expired l.window current (queue_of key l) in
    if leb l.limit (length times)
    then (false, record l { requests = insert key times l.requests })
    else (true, record l { requests = insert key (times ++ (current ∷ [])) l.requests })
