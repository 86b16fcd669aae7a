-- ===== src/Notifier/Fresh.antt =====
-- A Notifier that was just made holds nothing back.
use aotanami.Prelude.{
  ap, ◌∙◌, refl, inr, false, inl, arith, Bool-cases, true, ◌||◌, filter, ◌≡◌, All, [], ◌∷◌, ℕ, List,
  text_eq, Bool, Text,
}
use aotanami.Notifier.{
  send_channel, meets_min_severity, after_limit, Round, RateLimiter, send_channels, allow, limiters,
  allow_channel, ChannelConfig, Notification, send, new, stamp,
}

abbrev IsUnlimited : Text × RateLimiter → Type 0
IsUnlimited l = l.1.limit ≡ 0

allow-IsUnlimited :
    (now : ℕ) (rl : RateLimiter)
    → rl.limit ≡ 0
    → ((allow now rl).0.limit ≡ 0) × ((allow now rl).1 ≡ true)
unfolding allow
allow-IsUnlimited now rl h = ground arith

allow_channel-IsUnlimited :
    (now : ℕ) (name : Text) (ls : List (Text × RateLimiter))
    → All IsUnlimited ls
    → All IsUnlimited (allow_channel now name ls).0 × ((allow_channel now name ls).1 ≡ true)
unfolding allow_channel
allow_channel-IsUnlimited now name [] h = (tt, refl)
allow_channel-IsUnlimited now name (l ∷ ls) (h, hs) = elim (Bool-cases (text_eq l.0 name)) [
  | inl e ↦ let (still, granted) = allow-IsUnlimited now l.1 h in rw e ((still, hs), granted)
  | inr e ↦
      let (rest, allowed) = allow_channel-IsUnlimited now name ls hs in rw e ((h, rest), allowed)
]

limiters-IsUnlimited :
    (now : ℕ) (chs : List ChannelConfig) (made : List (Text × RateLimiter))
    → All (λ ch. ch.rate_limit_per_minute ≡ 0) chs
    → All IsUnlimited made
    → All IsUnlimited (limiters now chs made)
unfolding limiters
limiters-IsUnlimited now [] made h k = k
limiters-IsUnlimited now (ch ∷ chs) made (h, hs) k = limiters-IsUnlimited now chs _ hs (h, k)

-- The channel takes notifications of the severity.
pub admits : Text → ChannelConfig → Bool
admits severity ch = text_eq ch.min_severity [] || meets_min_severity severity ch.min_severity

module _ {W : Type 0} (deliver : ChannelConfig → Notification → W → Bool × W) where
  -- One delivery to each of the channels.
  abbrev pub deliver_each : Notification → List ChannelConfig → W → W
  deliver_each notif [] w = w
  deliver_each notif (ch ∷ chs) w = deliver_each notif chs (deliver ch notif w).1

  after_limit-IsUnlimited :
      (ch : ChannelConfig) (notif : Notification) (r : Round W)
      (o : List (Text × RateLimiter) × Bool)
      → o.1 ≡ true
      → All IsUnlimited o.0
      → All IsUnlimited (after_limit deliver ch notif r o).rate_limits
  after_limit-IsUnlimited ch notif r (ls, true) e h = h
  after_limit-IsUnlimited ch notif r (ls, false) e h = h

  after_limit-world :
      (ch : ChannelConfig) (notif : Notification) (r : Round W)
      (o : List (Text × RateLimiter) × Bool)
      → o.1 ≡ true
      → (after_limit deliver ch notif r o).world ≡ (deliver ch notif r.world).1
  after_limit-world ch notif r (ls, true) e = refl
  after_limit-world ch notif r (ls, false) e = absurd (ground (arith, e))

  -- What the loop does at a channel that takes the notification, and at another.
  send_channel-admitted :
      (now : ℕ) (notif : Notification) (ch : ChannelConfig) (r : Round W)
      → admits notif.severity ch ≡ true
      → send_channel deliver now notif ch r
        ≡ after_limit deliver ch notif r (allow_channel now ch.name r.rate_limits)
  unfolding send_channel admits
  send_channel-admitted now notif ch r h = ground (arith, h)

  send_channel-skipped :
      (now : ℕ) (notif : Notification) (ch : ChannelConfig) (r : Round W)
      → admits notif.severity ch ≡ false
      → send_channel deliver now notif ch r ≡ r
  unfolding send_channel admits
  send_channel-skipped now notif ch r h = ground (arith, h)

  send_channels-deliver_each :
      (now : ℕ) (notif : Notification) (chs : List ChannelConfig) (r : Round W)
      → All IsUnlimited r.rate_limits
      → (send_channels deliver now notif chs r).world
        ≡ deliver_each notif (filter (admits notif.severity) chs) r.world
  unfolding send_channels
  send_channels-deliver_each now notif [] r h = refl
  send_channels-deliver_each now notif (ch ∷ chs) r h =
      let (still, granted) = allow_channel-IsUnlimited now ch.name r.rate_limits h in
      let ask = allow_channel now ch.name r.rate_limits in
      let go = λ (x : Round W). (send_channels deliver now notif chs x).world in
      elim (Bool-cases (admits notif.severity ch)) [
        | inr skipped ↦ rw skipped (
            ap go (send_channel-skipped now notif ch r skipped)
            ∙ send_channels-deliver_each now notif chs r h)
        | inl admitted ↦ rw admitted (
            ap go (send_channel-admitted now notif ch r admitted)
            ∙ send_channels-deliver_each now notif chs (after_limit deliver ch notif r ask)
                (after_limit-IsUnlimited ch notif r ask granted still)
            ∙ ap (deliver_each notif (filter (admits notif.severity) chs))
                (after_limit-world ch notif r ask granted))
      ]

  stamp-severity :
      (now : ℕ) (notif : Notification) → (stamp deliver now notif).severity ≡ notif.severity
  stamp-severity now notif = ground arith

  -- A Notifier that was just made, of channels without a rate limit, delivers its first notification
  -- to every channel that takes its severity, once and in order, whatever was sent before.
  pub fresh_send_lem :
      (now : ℕ) (notif : Notification) (chs : List ChannelConfig) (w : W)
      → All (λ ch. ch.rate_limit_per_minute ≡ 0) chs
      → (send deliver now notif (new now chs) w).world
        ≡ deliver_each (stamp deliver now notif) (filter (admits notif.severity) chs) w
  unfolding send new
  fresh_send_lem now notif chs w h =
      send_channels-deliver_each now (stamp deliver now notif) chs
        (record { rate_limits = limiters now chs []; failed = 0; world = w })
        (limiters-IsUnlimited now chs [] h tt)
      ∙ ap (λ s. deliver_each (stamp deliver now notif) (filter (admits s) chs) w)
          (stamp-severity now notif)
