-- ===== src/Notifier/Limit.antt =====
-- What a rate limiter guarantees.
use aotanami.Prelude.{refl, false, ltb, ◌≤◌, arith, ◌⊎◌, if◌then◌else◌, ◌+◌, true, ◌≡◌, Bool, ℕ}
use aotanami.Notifier.{minute, new_limiter, allow, roll, grant, RateLimiter, ChannelConfig}

abbrev one_if : Bool → ℕ
one_if true = 1
one_if false = 0

-- A limiter that New made and `allow` changed, and the number of times that it granted since its
-- window began.
pub data Granted : RateLimiter → ℕ → Type 0 where
  made : (now : ℕ) (ch : ChannelConfig) → Granted (new_limiter now ch) 0
  asked :
      (now : ℕ) {rl : RateLimiter} {n : ℕ}
      → Granted rl n
      → Granted
          (allow now rl).0
          ((if ltb (rl.window + minute) now then 0 else n) + one_if (allow now rl).1)

abbrev IsCounted : RateLimiter → ℕ → Type 0
IsCounted rl n = (rl.count ≡ n) × ((rl.limit ≡ 0) ⊎ (n ≤ rl.limit))

grant-IsCounted :
    (rl : RateLimiter) (n : ℕ) → IsCounted rl n → IsCounted (grant rl).0 (n + one_if (grant rl).1)
unfolding grant
grant-IsCounted rl n (same, few) = ground (arith, same, few)

roll-IsCounted :
    (now : ℕ) (rl : RateLimiter) (n : ℕ)
    → IsCounted rl n
    → IsCounted (roll now rl) (if ltb (rl.window + minute) now then 0 else n)
unfolding roll
roll-IsCounted now rl n (same, few) = ground (arith, same, few)

-- However often and whenever a limiter is asked: with a limit, it grants at most as many times as the
-- limit in one window, and its counter is that number.
pub grants_are_limited :
    {rl : RateLimiter} {n : ℕ} → Granted rl n → (rl.count ≡ n) × ((rl.limit ≡ 0) ⊎ (n ≤ rl.limit))
unfolding allow new_limiter
grants_are_limited (made now ch) = (refl, ground arith)
grants_are_limited (asked now {rl} {n} g) =
    grant-IsCounted (roll now rl) (if ltb (rl.window + minute) now then 0 else n)
      (roll-IsCounted now rl n (grants_are_limited g))
