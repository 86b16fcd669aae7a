-- ===== src/Notifier/Tests.antt =====
-- One channel, and a world that counts the deliveries.
use aotanami.Notifier.Limit.{made, asked, Granted}
use aotanami.Notifier.{
  RateLimiter, new_limiter, allow, Notifier, Notification, ChannelConfig, new, slack, send,
}
use aotanami.Prelude.{refl, suc, [], true, ◌≡◌, Bool, codes, ◌∷◌, text_eq, ℕ}

abbrev channel : ChannelConfig
channel = record {
  type = slack;
  name = codes "ops";
  webhook_url = codes "u";
  api_key = [];
  min_severity = codes "high";
  rate_limit_per_minute = 1;
}

abbrev notification : Notification
notification = record {
  title = codes "t";
  message = [];
  severity = codes "critical";
  source = [];
  resource_kind = [];
  resource_name = [];
  namespace = [];
  deduplication_key = codes "k";
  timestamp = 0;
  metadata = [];
}

abbrev other : Notification
other = record notification { deduplication_key = codes "l" }

abbrev deliver : ChannelConfig → Notification → ℕ → Bool × ℕ
deliver ch notif w = (true, suc w)

abbrev notifier : Notifier
notifier = new 1 (channel ∷ [])

-- The first is delivered, the second is over the limit of one per minute.
delivered_once :
    let first = send deliver 2 notification notifier 0 in
    ((first.world ≡ 1) × ((send deliver 3 other first.notifier first.world).world ≡ 1))
unfolding send new text_eq
delivered_once = (refl, refl)

abbrev used : RateLimiter
used = record { count = 1; limit = 1; window = 1 }

used-Granted : Granted used 1
unfolding allow new_limiter
used-Granted = asked 2 (made 1 channel)
