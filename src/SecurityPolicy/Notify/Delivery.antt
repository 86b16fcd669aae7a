-- ===== src/SecurityPolicy/Notify/Delivery.antt =====
-- Whom sendNotifications reaches.
use aotanami.SecurityPolicy.Notify.{
  url_of, config_of, notify, notification, ChannelApi, send_notifications, channel_configs,
}
use aotanami.Prelude.{
  sym, arith, ◌⊎◌, ◌≢◌, text_eq_iff, ◌++◌, refl, ap, [], inr, All-gather, ◌∙◌, codes, inl, gather,
  ◌==◌, filter, ◌∷◌, text_eq, Bool-cases, ◌≡◌, List, Text, All, ℕ, Bool,
}
use aotanami.SecurityPolicy.Model.{err, ok, Attempt, NotificationChannel, SecurityPolicy}
use aotanami.Notifier.{slack, ChannelConfig, Notification, stamp}
use aotanami.Notifier.Fresh.{fresh_send_lem, deliver_each, admits}
use aotanami.Remediation.Model.{Finding}

-- The webhook of a secret: its `url`, or its `webhook-url` if that is empty.
abbrev IsWebhook : (Text → Text) → Text → Type 0
IsWebhook secret url =
    ((secret (codes "url") ≢ []) × (url ≡ secret (codes "url")))
    ⊎ ((secret (codes "url") ≡ []) × (url ≡ secret (codes "webhook-url")))

-- A Slack channel with a webhook, and how it is sent to.
pub record IsReceiver (api : ChannelApi) (ch : NotificationChannel) (c : ChannelConfig)
    : Type 0 where
  pub of_slack : ch.type ≡ codes "slack"
  pub secret : Text → Text
  pub secret_found : api.get_secret ch.namespace ch.credential_secret ≡ ok secret
  pub webhook : IsWebhook secret c.webhook_url
  pub some_webhook : c.webhook_url ≢ []
  pub same_name : c.name ≡ ch.name
  pub same_filter : c.min_severity ≡ ch.severity_filter
  pub to_slack : c.type ≡ slack

-- The receivers among the channels, in order.
pub data Receivers (api : ChannelApi) : List NotificationChannel → List ChannelConfig → Type 0 where
  no_channel : Receivers api [] []
  passed_over :
      {ch : NotificationChannel} {chs : List NotificationChannel} {cs : List ChannelConfig}
      → ((c : ChannelConfig) → ¬ IsReceiver api ch c)
      → Receivers api chs cs
      → Receivers api (ch ∷ chs) cs
  receives :
      {ch : NotificationChannel} {chs : List NotificationChannel} {c : ChannelConfig}
      {cs : List ChannelConfig}
      → IsReceiver api ch c
      → Receivers api chs cs
      → Receivers api (ch ∷ chs) (c ∷ cs)

url_of-IsWebhook : (secret : Text → Text) → IsWebhook secret (url_of secret)
url_of-IsWebhook secret = elim (Bool-cases (text_eq (secret (codes "url")) [])) [
  | inl e ↦ rw e (inr ((text_eq_iff (secret (codes "url")) []).0 e, refl))
  | inr e ↦ rw e (inl ((λ k. ground (arith, e, (text_eq_iff (secret (codes "url")) []).1 k)), refl))
]

-- A secret has one webhook.
IsWebhook-url_of : (secret : Text → Text) (url : Text) → IsWebhook secret url → url ≡ url_of secret
IsWebhook-url_of secret url (inl (some_url, e)) =
    elim (Bool-cases (text_eq (secret (codes "url")) [])) [
      | inl empty ↦ absurd (some_url ((text_eq_iff (secret (codes "url")) []).0 empty))
      | inr other ↦ rw other e
    ]
IsWebhook-url_of secret url (inr (no_url, e)) =
    let empty = (text_eq_iff (secret (codes "url")) []).1 no_url in rw empty e

-- What a read of the secret returned.
abbrev secret_of : (Text → Text) → Attempt (Text → Text) → Text → Text
secret_of default (ok secret) = secret
secret_of default (err e) = default

config_of-Receivers :
    (api : ChannelApi) (ch : NotificationChannel) (chs : List NotificationChannel)
    (cs : List ChannelConfig) (secret : Attempt (Text → Text))
    → api.get_secret ch.namespace ch.credential_secret ≡ secret
    → ch.type ≡ codes "slack"
    → Receivers api chs cs
    → Receivers api (ch ∷ chs) (config_of ch secret ++ cs)
config_of-Receivers api ch chs cs (err e) same slack_type rs =
    passed_over (λ c h. ground (arith, h.secret_found, same)) rs
config_of-Receivers api ch chs cs (ok secret) same slack_type rs =
    elim (Bool-cases (text_eq (url_of secret) [])) [
      | inl e ↦
          let apart : (c : ChannelConfig) → ¬ IsReceiver api ch c = λ c h. h.some_webhook (
            IsWebhook-url_of h.secret c.webhook_url h.webhook
            ∙ ap (λ a. url_of (secret_of secret a)) (sym h.secret_found ∙ same)
            ∙ (text_eq_iff (url_of secret) []).0 e) in
          rw e (passed_over apart rs)
      | inr e ↦ rw e (
          receives
            (record {
              of_slack = slack_type;
              secret = secret;
              secret_found = same;
              webhook = url_of-IsWebhook secret;
              some_webhook = λ k. ground (arith, e, (text_eq_iff (url_of secret) []).1 k);
              same_name = refl;
              same_filter = refl;
              to_slack = refl;
            })
            rs)
    ]

channel_configs-Receivers :
    (api : ChannelApi) (chs : List NotificationChannel)
    → Receivers api chs (gather (channel_configs api) chs)
unfolding channel_configs
channel_configs-Receivers api [] = no_channel
channel_configs-Receivers api (ch ∷ chs) =
    let rest = channel_configs-Receivers api chs in
    elim (Bool-cases (text_eq ch.type (codes "slack"))) [
      | inl e ↦ rw e (
          config_of-Receivers api ch chs _ (api.get_secret ch.namespace ch.credential_secret) refl
            ((text_eq_iff ch.type (codes "slack")).0 e) rest)
      | inr e ↦ rw e (
          passed_over (λ c h. ground (arith, e, (text_eq_iff ch.type (codes "slack")).1 h.of_slack))
            rest)
    ]

config_of-unlimited :
    (ch : NotificationChannel) (secret : Attempt (Text → Text))
    → All (λ c. c.rate_limit_per_minute ≡ 0) (config_of ch secret)
config_of-unlimited ch (err e) = tt
config_of-unlimited ch (ok secret) = elim (Bool-cases (text_eq (url_of secret) [])) [
  | inl e ↦ rw e tt
  | inr e ↦ rw e (refl, tt)
]

channel_configs-unlimited :
    (api : ChannelApi) (ch : NotificationChannel)
    → All (λ c. c.rate_limit_per_minute ≡ 0) (channel_configs api ch)
unfolding channel_configs
channel_configs-unlimited api ch = elim (Bool-cases (text_eq ch.type (codes "slack"))) [
  | inl e ↦ rw e (config_of-unlimited ch (api.get_secret ch.namespace ch.credential_secret))
  | inr e ↦ rw e tt
]

module _ {W : Type 0} (deliver : ChannelConfig → Notification → W → Bool × W) where
  stamp-notification :
      (now : ℕ) (policy : SecurityPolicy) (f : Finding) (fs : List Finding)
      → stamp deliver now (notification now policy f fs) ≡ notification now policy f fs
  stamp-notification now policy f fs = elim (Bool-cases (now == 0)) [
    | inl e ↦ rw e refl
    | inr e ↦ rw e refl
  ]

  notify-deliver_each :
      (now : ℕ) (notif : Notification) (cs : List ChannelConfig) (w : W)
      → All (λ c. c.rate_limit_per_minute ≡ 0) cs
      → stamp deliver now notif ≡ notif
      → notify deliver now notif cs w
        ≡ deliver_each deliver notif (filter (admits notif.severity) cs) w
  notify-deliver_each now notif [] w h e = refl
  notify-deliver_each now notif (c ∷ cs) w h e =
      fresh_send_lem deliver now notif (c ∷ cs) w h
      ∙ ap (λ n. deliver_each deliver n (filter (admits notif.severity) (c ∷ cs)) w) e

  send_notifications-deliver_each :
      (api : ChannelApi) (now : ℕ) (policy : SecurityPolicy) (f : Finding) (fs : List Finding)
      (channels : List NotificationChannel) (w : W)
      → api.list_channels ≡ ok channels
      → send_notifications deliver api now policy (f ∷ fs) w
        ≡ deliver_each deliver
            (notification now policy f (f ∷ fs))
            (filter (admits f.severity) (gather (channel_configs api) channels))
            w
  unfolding send_notifications
  send_notifications-deliver_each api now policy f fs channels w e = rw e (
      notify-deliver_each now (notification now policy f (f ∷ fs))
        (gather (channel_configs api) channels) w
        (All-gather _ (channel_configs api) (channel_configs-unlimited api) channels)
        (stamp-notification now policy f (f ∷ fs)))

  -- If the channels can be listed, one notification, with the severity of the first finding, is
  -- delivered to each Slack channel whose secret can be read and has a webhook, and which takes
  -- that severity: once and in order, at every scan, whatever was sent before, and whichever
  -- channels the policy names.
  pub send_notifications_lem :
      (api : ChannelApi) (now : ℕ) (policy : SecurityPolicy) (f : Finding) (fs : List Finding)
      (channels : List NotificationChannel) (w : W)
      → api.list_channels ≡ ok channels
      → (cs : List ChannelConfig) × Receivers api channels cs
        × (send_notifications deliver api now policy (f ∷ fs) w
            ≡ deliver_each deliver
                (notification now policy f (f ∷ fs))
                (filter (admits f.severity) cs)
                w)
  send_notifications_lem api now policy f fs channels w e = (
    gather (channel_configs api) channels,
    channel_configs-Receivers api channels,
    send_notifications-deliver_each api now policy f fs channels w e,
  )
