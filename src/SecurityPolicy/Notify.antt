-- ===== src/SecurityPolicy/Notify.antt =====
-- sendNotifications: one notification of all findings to every Slack channel of the cluster.
pub mod Delivery
use aotanami.Prelude.{
  ◌-◌, length, leb, gather, decimal, ◌++◌, codes, suc, [], text_eq, utf8, ◌∷◌, List, if◌then◌else◌,
  Bool, Text, ℕ,
}
use aotanami.SecurityPolicy.Model.{ok, err, Attempt, NotificationChannel, SecurityPolicy}
use aotanami.Notifier.{ChannelConfig, Notification, send, new, slack}
use aotanami.Remediation.Model.{Finding}

-- The calls of the Kubernetes API. A secret is its data; a missing key is the empty text.
pub record ChannelApi : Type 0 where
  pub list_channels : Attempt (List NotificationChannel)
  pub get_secret : Text → Text → Attempt (Text → Text)

abbrev pub url_of : (Text → Text) → Text
url_of secret =
    if text_eq (secret (codes "url")) [] then secret (codes "webhook-url") else secret (codes "url")

abbrev pub config_of : NotificationChannel → Attempt (Text → Text) → List ChannelConfig
config_of ch (err e) = []
config_of ch (ok secret) =
    if text_eq (url_of secret) []
    then []
    else record {
      type = slack;
      name = ch.name;
      webhook_url = url_of secret;
      api_key = [];
      min_severity = ch.severity_filter;
      rate_limit_per_minute = 0;
    }
      ∷ []

-- The body of the loop over the channels.
pub channel_configs : ChannelApi → NotificationChannel → List ChannelConfig
channel_configs api ch =
    if text_eq ch.type (codes "slack")
    then config_of ch (api.get_secret ch.namespace ch.credential_secret)
    else []

-- The loop that writes the message; `i` is the index of the next finding.
pub write_findings : ℕ → ℕ → List Finding → Text
write_findings count i [] = []
write_findings count i (f ∷ fs) =
    let rest = write_findings count (suc i) fs in
    if leb 10 i
    then utf8 "\n... and " ++ decimal (count - 10) ++ utf8 " more"
    else utf8 "• *["
      ++ f.severity
      ++ utf8 "]* "
      ++ f.title
      ++ utf8 " ("
      ++ f.resource_namespace
      ++ utf8 "/"
      ++ f.resource_name
      ++ utf8 ")\n"
      ++ rest

-- The notification; `worst` is the first finding. The three bytes are a variation selector.
abbrev pub notification : ℕ → SecurityPolicy → Finding → List Finding → Notification
notification now policy worst findings = record {
  title =
      utf8 "🛡"
      ++ 239 ∷ 184 ∷ 143 ∷ []
      ++ utf8 " Zelyo Alert: "
      ++ decimal (length findings)
      ++ utf8 " Violations Detected";
  message =
      utf8 "Found security violations in your cluster:\n\n"
      ++ write_findings (length findings) 0 findings;
  severity = worst.severity;
  source = codes "securitypolicy/" ++ policy.name;
  resource_kind = codes "SecurityPolicy";
  resource_name = policy.name;
  namespace = policy.namespace;
  deduplication_key = [];
  timestamp = now;
  metadata = [];
}

module _ {W : Type 0} (deliver : ChannelConfig → Notification → W → Bool × W) where
  abbrev notify : ℕ → Notification → List ChannelConfig → W → W
  notify now notif [] w = w
  notify now notif (c ∷ cs) w = (send deliver now notif (new now (c ∷ cs)) w).world

  abbrev notify_channels :
      ChannelApi → ℕ → Notification → Attempt (List NotificationChannel) → W → W
  notify_channels api now notif (err e) w = w
  notify_channels api now notif (ok channels) w =
      notify now notif (gather (channel_configs api) channels) w

  -- sendNotifications, which Reconcile calls if there is a finding.
  unfoldable pub send_notifications : ChannelApi → ℕ → SecurityPolicy → List Finding → W → W
  unfolding channel_configs write_findings
  send_notifications api now policy [] w = w
  send_notifications api now policy (f ∷ fs) w =
      notify_channels api now (notification now policy f (f ∷ fs)) api.list_channels w
