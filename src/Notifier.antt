-- ===== src/Notifier.antt =====
-- internal/notifier/notifier.go: Send with its deduplication and its rate limits. `deliver` is
-- sendToChannel, which posts to the channel over HTTP and acts on the state `W` of the world.
pub mod Limit
pub mod Dedup
pub mod Fresh
mod Tests
use aotanami.Prelude.{
  false, ◌&&◌, any, codes, ◌++◌, ◌∷◌, ◌+◌, ◌==◌, not, filter, [], true, ltb, leb, text_eq, List,
  ◌*◌, if◌then◌else◌, Bool, Text, ℕ,
}

pub data ChannelType : Type 0 where
  slack teams pager_duty webhook : ChannelType
  other_channel : Text → ChannelType

pub record Notification : Type 0 where
  pub title : Text
  pub message : Text
  pub severity : Text
  pub source : Text
  pub resource_kind : Text
  pub resource_name : Text
  pub namespace : Text
  pub deduplication_key : Text
  pub timestamp : ℕ
  pub metadata : List (Text × Text)

pub record ChannelConfig : Type 0 where
  pub type : ChannelType
  pub name : Text
  pub webhook_url : Text
  pub api_key : Text
  pub min_severity : Text
  pub rate_limit_per_minute : ℕ

pub record RateLimiter : Type 0 where
  pub count : ℕ
  pub limit : ℕ
  pub window : ℕ

pub record Notifier : Type 0 where
  pub channels : List ChannelConfig
  pub seen : List (Text × ℕ)
  pub dedup_ttl : ℕ
  pub rate_limits : List (Text × RateLimiter)

abbrev pub minute : ℕ
minute = 60 * 1000000000

-- The limiter that New gives a channel.
unfoldable pub new_limiter : ℕ → ChannelConfig → RateLimiter
new_limiter now ch = record { count = 0; limit = ch.rate_limit_per_minute; window = now }

-- The loop of New: of two channels with the same name the last one's limiter is found.
pub limiters : ℕ → List ChannelConfig → List (Text × RateLimiter) → List (Text × RateLimiter)
unfolding new_limiter
limiters now [] made = made
limiters now (ch ∷ chs) made = limiters now chs ((ch.name, new_limiter now ch) ∷ made)

-- New
unfoldable pub new : ℕ → List ChannelConfig → Notifier
unfolding limiters
new now channels = record {
  channels = channels;
  seen = [];
  dedup_ttl = 15 * minute;
  rate_limits = limiters now channels [];
}

-- allow: a new window begins when more than a minute has passed.
pub roll : ℕ → RateLimiter → RateLimiter
roll now rl = if ltb (rl.window + minute) now then record rl { count = 0; window = now } else rl

pub grant : RateLimiter → RateLimiter × Bool
grant rl =
    if ltb 0 rl.limit && leb rl.limit rl.count
    then (rl, false)
    else (record rl { count = rl.count + 1 }, true)

-- allow
unfoldable pub allow : ℕ → RateLimiter → RateLimiter × Bool
unfolding roll grant
allow now rl = grant (roll now rl)

-- The lookup of a channel's limiter and its allow; a channel without one is not limited.
pub allow_channel : ℕ → Text → List (Text × RateLimiter) → List (Text × RateLimiter) × Bool
unfolding allow
allow_channel now name [] = ([], true)
allow_channel now name (l ∷ ls) =
    let (rest, allowed) = allow_channel now name ls in
    let (rl, granted) = allow now l.1 in
    if text_eq l.0 name then ((l.0, rl) ∷ ls, granted) else (l ∷ rest, allowed)

-- severityOrder; a missing key is 0.
pub severity_order : Text → ℕ
severity_order s =
    if text_eq s (codes "critical")
    then 5
    else if text_eq s (codes "high")
    then 4
    else if text_eq s (codes "medium")
    then 3
    else if text_eq s (codes "low")
    then 2
    else if text_eq s (codes "info")
    then 1
    else 0

-- meetsMinSeverity
pub meets_min_severity : Text → Text → Bool
unfolding severity_order
meets_min_severity actual minimum = leb (severity_order minimum) (severity_order actual)

-- isDuplicate: expired keys are forgotten first.
unfoldable pub is_duplicate : ℕ → Text → Notifier → Notifier × Bool
is_duplicate now key n =
    let kept = filter (λ e. leb now (e.1 + n.dedup_ttl)) n.seen in
    if any (λ e. text_eq e.0 key) kept
    then (record n { seen = kept }, true)
    else (record n { seen = (key, now) ∷ kept }, false)

-- The key of a notification.
unfoldable pub dedup_key : Notification → Text
dedup_key notif =
    if text_eq notif.deduplication_key []
    then notif.title
      ++ codes "/"
      ++ notif.resource_kind
      ++ codes "/"
      ++ notif.resource_name
      ++ codes "/"
      ++ notif.namespace
    else notif.deduplication_key

-- The limiters, the number of failed channels, and the world, as the loop of Send goes on.
pub record Round (W : Type 0) : Type 0 where
  pub rate_limits : List (Text × RateLimiter)
  pub failed : ℕ
  pub world : W

-- What Send leaves and returns: the number of failed channels, 0 for no error.
pub record Sent (W : Type 0) : Type 0 where
  pub notifier : Notifier
  pub failed : ℕ
  pub world : W

module _ {W : Type 0} (deliver : ChannelConfig → Notification → W → Bool × W) where
  abbrev pub after_limit :
      ChannelConfig → Notification → Round W → List (Text × RateLimiter) × Bool → Round W
  after_limit ch notif r (limits, false) = record r { rate_limits = limits }
  after_limit ch notif r (limits, true) =
      let (delivered, w) = deliver ch notif r.world in
      record {
        rate_limits = limits;
        failed = if delivered then r.failed else r.failed + 1;
        world = w;
      }

  -- The body of the loop of Send.
  pub send_channel : ℕ → Notification → ChannelConfig → Round W → Round W
  unfolding allow_channel meets_min_severity
  send_channel now notif ch r =
      if not (text_eq ch.min_severity []) && not (meets_min_severity notif.severity ch.min_severity)
      then r
      else after_limit ch notif r (allow_channel now ch.name r.rate_limits)

  -- The loop of Send.
  pub send_channels : ℕ → Notification → List ChannelConfig → Round W → Round W
  unfolding send_channel
  send_channels now notif [] r = r
  send_channels now notif (ch ∷ chs) r = send_channels now notif chs (send_channel now notif ch r)

  abbrev finish : Notifier → Round W → Sent W
  finish n r = record {
    notifier = record n { rate_limits = r.rate_limits };
    failed = r.failed;
    world = r.world;
  }

  -- Send by what isDuplicate returned.
  abbrev send_unless : ℕ → Notification → W → Notifier × Bool → Sent W
  send_unless now notif w (n, true) = record { notifier = n; failed = 0; world = w }
  send_unless now notif w (n, false) = finish n (
      send_channels now notif n.channels
        (record { rate_limits = n.rate_limits; failed = 0; world = w }))

  abbrev pub stamp : ℕ → Notification → Notification
  stamp now notif = if notif.timestamp == 0 then record notif { timestamp = now } else notif

  -- Send
  unfoldable pub send : ℕ → Notification → Notifier → W → Sent W
  unfolding send_channels is_duplicate dedup_key
  send now notif n w = send_unless now (stamp now notif) w (is_duplicate now (dedup_key notif) n)
