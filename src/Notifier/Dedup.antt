-- ===== src/Notifier/Dedup.antt =====
-- What the deduplication of Send guarantees.
use aotanami.Prelude.{
  ap, ◌∙◌, Bool, [], text_eq_iff, arith, inr, refl, inl, Bool-cases, leb, filter, text_eq, true,
  Any, false, any, ◌+◌, ◌≡◌, ◌≤◌, Text, ℕ,
}
use aotanami.Notifier.{
  stamp, dedup_key, send, send_unless, ◌∷◌, List, is_duplicate, Notifier, Notification,
  ChannelConfig,
}

-- The key was seen, at a time not before `t`.
abbrev Remembers : Text → ℕ → List (Text × ℕ) → Type 0
Remembers key t = Any (λ e. (e.0 ≡ key) × (t ≤ e.1))

-- What was seen lately is kept.
kept-Remembers :
    (key : Text) (t now ttl : ℕ) (seen : List (Text × ℕ))
    → now ≤ t + ttl
    → Remembers key t seen
    → Remembers key t (filter (λ e. leb now (e.1 + ttl)) seen)
kept-Remembers key t now ttl [] le m = m
kept-Remembers key t now ttl (e ∷ es) le (inl (same, late)) =
    let keeps : leb now (e.1 + ttl) ≡ true = ground (arith, le, late) in rw keeps (inl (same, late))
kept-Remembers key t now ttl (e ∷ es) le (inr m) = elim (Bool-cases (leb now (e.1 + ttl))) [
  | inl keeps ↦ rw keeps (inr (kept-Remembers key t now ttl es le m))
  | inr drops ↦ rw drops (kept-Remembers key t now ttl es le m)
]

Remembers-any :
    (key : Text) (t : ℕ) (seen : List (Text × ℕ))
    → Remembers key t seen
    → any (λ e. text_eq e.0 key) seen ≡ true
Remembers-any key t [] m = absurd m
Remembers-any key t (e ∷ es) (inl (same, late)) = ground (arith, (text_eq_iff e.0 key).1 same)
Remembers-any key t (e ∷ es) (inr m) = ground (arith, Remembers-any key t es m)

-- A key that is remembered stays so.
is_duplicate-Remembers :
    (key : Text) (t now : ℕ) (other : Text) (n : Notifier)
    → now ≤ t + n.dedup_ttl
    → Remembers key t n.seen
    → Remembers key t (is_duplicate now other n).0.seen
unfolding is_duplicate
is_duplicate-Remembers key t now other n le m =
    let kept = filter (λ e. leb now (e.1 + n.dedup_ttl)) n.seen in
    let still = kept-Remembers key t now n.dedup_ttl n.seen le m in
    elim (Bool-cases (any (λ e. text_eq e.0 other) kept)) [
      | inl e ↦ rw e still
      | inr e ↦ rw e (inr still)
    ]

-- A key that is remembered is a duplicate.
Remembers-is_duplicate :
    (key : Text) (t now : ℕ) (n : Notifier)
    → now ≤ t + n.dedup_ttl
    → Remembers key t n.seen
    → (is_duplicate now key n).1 ≡ true
unfolding is_duplicate
Remembers-is_duplicate key t now n le m =
    let seen =
      Remembers-any key t (filter (λ e. leb now (e.1 + n.dedup_ttl)) n.seen)
        (kept-Remembers key t now n.dedup_ttl n.seen le m) in
    rw seen refl

-- A key that is no duplicate is remembered from then on.
new-Remembers :
    (key : Text) (now : ℕ) (n : Notifier)
    → (is_duplicate now key n).1 ≡ false
    → Remembers key now (is_duplicate now key n).0.seen
unfolding is_duplicate
new-Remembers key now n fresh =
    let kept = filter (λ e. leb now (e.1 + n.dedup_ttl)) n.seen in
    elim (Bool-cases (any (λ e. text_eq e.0 key) kept)) [
      | inl e ↦ absurd (ground (arith, e, fresh))
      | inr e ↦ rw e (inl (refl, omega arith))
    ]

is_duplicate-dedup_ttl :
    (now : ℕ) (key : Text) (n : Notifier) → (is_duplicate now key n).0.dedup_ttl ≡ n.dedup_ttl
unfolding is_duplicate
is_duplicate-dedup_ttl now key n =
    let kept = filter (λ e. leb now (e.1 + n.dedup_ttl)) n.seen in
    elim (Bool-cases (any (λ e. text_eq e.0 key) kept)) [ inl e ↦ rw e refl | inr e ↦ rw e refl ]

module _ {W : Type 0} (deliver : ChannelConfig → Notification → W → Bool × W) where
  -- Any number of notifications sent at times up to `limit`, from one notifier to another.
  pub data Sends (limit : ℕ) (n : Notifier) : Notifier → Type 0 where
    none_sent : Sends limit n n
    then_sent :
        {n' : Notifier} (now : ℕ) (notif : Notification) (w : W)
        → now ≤ limit
        → Sends limit n n'
        → Sends limit n (send deliver now notif n' w).notifier

  -- The key is remembered from `t` on, by a notifier with this time to live.
  record Holds (key : Text) (t : ℕ) (ttl : ℕ) (n : Notifier) : Type 0 where
    same_ttl : n.dedup_ttl ≡ ttl
    remembers : Remembers key t n.seen

  send_unless-Holds :
      (key : Text) (t ttl now : ℕ) (notif : Notification) (w : W) (r : Notifier × Bool)
      → Holds key t ttl r.0
      → Holds key t ttl (send_unless deliver now notif w r).notifier
  send_unless-Holds key t ttl now notif w (n, true) h = h
  send_unless-Holds key t ttl now notif w (n, false) h = record {
    same_ttl = h.same_ttl;
    remembers = h.remembers;
  }

  send-Holds :
      (key : Text) (t ttl now : ℕ) (notif : Notification) (n : Notifier) (w : W)
      → now ≤ t + ttl
      → Holds key t ttl n
      → Holds key t ttl (send deliver now notif n w).notifier
  unfolding send
  send-Holds key t ttl now notif n w le h =
      let other = dedup_key notif in
      send_unless-Holds key t ttl now (stamp deliver now notif) w (is_duplicate now other n)
        (record {
          same_ttl = is_duplicate-dedup_ttl now other n ∙ h.same_ttl;
          remembers =
              is_duplicate-Remembers key t now other n (omega (arith, le, h.same_ttl)) h.remembers;
        })

  Sends-Holds :
      (key : Text) (t ttl : ℕ) {n n' : Notifier}
      → Sends (t + ttl) n n'
      → Holds key t ttl n
      → Holds key t ttl n'
  Sends-Holds key t ttl none_sent h = h
  Sends-Holds key t ttl (then_sent {n'} now notif w le s) h =
      send-Holds key t ttl now notif n' w le (Sends-Holds key t ttl s h)

  dropped :
      (now : ℕ) (notif : Notification) (w : W) (r : Notifier × Bool)
      → r.1 ≡ true
      → ((send_unless deliver now notif w r).world ≡ w)
        × ((send_unless deliver now notif w r).failed ≡ 0)
  dropped now notif w (n, true) e = (refl, refl)
  dropped now notif w (n, false) e = absurd (ground (arith, e))

  -- A notification that was no duplicate when it was sent at `t`: until its time to live has passed,
  -- whatever else is sent in between, a notification with the same key reaches no channel, and Send
  -- returns no error.
  pub duplicate_is_dropped :
      (t : ℕ) (notif : Notification) (n : Notifier) (w : W) {n' : Notifier} (now : ℕ)
      (again : Notification) (v : W)
      → (is_duplicate t (dedup_key notif) n).1 ≡ false
      → Sends (t + n.dedup_ttl) (send deliver t notif n w).notifier n'
      → now ≤ t + n.dedup_ttl
      → dedup_key again ≡ dedup_key notif
      → ((send deliver now again n' v).world ≡ v) × ((send deliver now again n' v).failed ≡ 0)
  unfolding send
  duplicate_is_dropped t notif n w {n'} now again v fresh between le same =
      let key = dedup_key notif in
      let first : Holds key t n.dedup_ttl (send deliver t notif n w).notifier =
        send_unless-Holds key t n.dedup_ttl t (stamp deliver t notif) w (is_duplicate t key n)
          (record {
            same_ttl = is_duplicate-dedup_ttl t key n;
            remembers = new-Remembers key t n fresh;
          }) in
      let held = Sends-Holds key t n.dedup_ttl between first in
      dropped now (stamp deliver now again) v (is_duplicate now (dedup_key again) n') (
        ap (λ k. (is_duplicate now k n').1) same
        ∙ Remembers-is_duplicate key t now n' (omega (arith, le, held.same_ttl)) held.remembers)
