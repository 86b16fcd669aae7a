-- ===== src/Llm/Retry/Rounds.antt =====
-- How executeWithRetry ends. The world counts the requests; `replies` tells the reply to each, and
-- `waits` the error of the context, if it is done, in the wait that follows so many requests.
use aotanami.Llm.Construct.{RetryConfig}
use aotanami.Prelude.{
  ◌∙◌, some, ◌⊎◌, Text, Option, refl, zero, inr, ==_iff, sym, true, inl, ap, false, subst, ◌==◌,
  none, arith, Bool-cases, ◌≡◌, suc, ◌+◌, ◌≤◌, ◌<◌, ℕ,
}
use aotanami.Llm.Retry.{
  next_backoff, canceled, after_wait, CallError, Reply, RetryConfig, Transport, after_reply,
  answered, execute_with_retry, is_non_retryable, max_retries, refused, retries_exhausted, retry,
}

abbrev pub scripted : {A : Type 0} → (ℕ → Reply A) → (ℕ → Option Text) → (ℕ → ℕ → ℕ) → Transport ℕ A
scripted replies waits jitter = record {
  request = λ i. (suc i, replies i);
  wait = λ d i. (i, waits i);
  jitter = jitter;
}

module _ {A : Type 0} where
  -- An error after which the client tries again.
  pub record IsRetryable (r : Reply A) : Type 0 where
    pub error : CallError
    pub is_refused : r ≡ refused error
    pub is_temporary : is_non_retryable error ≡ false

  -- An answer, or an error that the client returns at once.
  pub data IsFinal (r : Reply A) : Type 0 where
    success : (a : A) → r ≡ answered a → IsFinal r
    permanent : (e : CallError) → r ≡ refused e → is_non_retryable e ≡ true → IsFinal r

  -- After `k` requests each reply was retryable, and of the waits between them none was canceled.
  pub record IsPending (replies : ℕ → Reply A) (waits : ℕ → Option Text) (k : ℕ) : Type 0 where
    pub retryable : (i : ℕ) → i < k → IsRetryable (replies i)
    pub waited : (i : ℕ) → 0 < i → i < k → waits i ≡ none

  -- The run ends with the first final reply, which is among the first `max + 1`; or there is none
  -- among them, and it ends with the last error, wrapped; or the context is done in a wait before.
  pub data Ends (replies : ℕ → Reply A) (waits : ℕ → Option Text) (max : ℕ) (result : ℕ × Reply A)
      : Type 0 where
    at_reply :
        (k : ℕ)
        → k ≤ max
        → IsPending replies waits k
        → (k ≡ 0) ⊎ (waits k ≡ none)
        → IsFinal (replies k)
        → result ≡ (suc k, replies k)
        → Ends replies waits max result
    exhausted :
        (e : CallError)
        → IsPending replies waits (suc max)
        → replies max ≡ refused e
        → result ≡ (suc max, refused (retries_exhausted max e))
        → Ends replies waits max result
    at_wait :
        (k : ℕ) (e : Text)
        → 0 < k
        → k ≤ max
        → IsPending replies waits k
        → waits k ≡ some e
        → result ≡ (k, refused (canceled e))
        → Ends replies waits max result

  one_more :
      (replies : ℕ → Reply A) (waits : ℕ → Option Text) (k : ℕ)
      → IsPending replies waits k
      → (k ≡ 0) ⊎ (waits k ≡ none)
      → IsRetryable (replies k)
      → IsPending replies waits (suc k)
  one_more replies waits k before passed here = record {
    retryable = λ i h. elim (Bool-cases (i == k)) [
      | inl e ↦ subst (λ j. IsRetryable (replies j)) (sym ((==_iff i k).0 e)) here
      | inr e ↦ before.retryable i (ground (arith, e, h))
    ];
    waited = λ i pos h. elim (Bool-cases (i == k)) [
      | inl e ↦
          let same : i ≡ k = (==_iff i k).0 e in
          ap waits same ∙ elim passed [
            | inl zero_requests ↦ absurd (omega (arith, zero_requests, same, pos))
            | inr w ↦ w
          ]
      | inr e ↦ before.waited i pos (ground (arith, e, h))
    ];
  }

  module _ {F : Type 0} (config : RetryConfig F) (scale : F → ℕ → ℕ) (replies : ℕ → Reply A)
      (waits : ℕ → Option Text) (jitter : ℕ → ℕ → ℕ) where
    abbrev transport : Transport ℕ A
    transport = scripted replies waits jitter

    abbrev max : ℕ
    max = max_retries config scale transport

    -- After a reply that the client has got.
    after_reply-Ends :
        (n i : ℕ) (backoff : ℕ) (r : Reply A)
        → i + n ≡ max
        → IsPending replies waits i
        → (i ≡ 0) ⊎ (waits i ≡ none)
        → replies i ≡ r
        → ((e : CallError)
            → IsPending replies waits (suc i)
            → replies i ≡ refused e
            → Ends replies waits max (retry config scale transport n backoff e (suc i)))
        → Ends replies waits max
            (after_reply config scale transport (retry config scale transport n backoff) (suc i, r))
    after_reply-Ends n i backoff (answered a) h before passed e next =
        at_reply i (omega (arith, h)) before passed (success a e) (ap (λ x. (suc i, x)) (sym e))
    after_reply-Ends n i backoff (refused x) h before passed e next =
        elim (Bool-cases (is_non_retryable x)) [
          | inl p ↦ rw p (
              at_reply i (omega (arith, h)) before passed (permanent x e p)
                (ap (λ y. (suc i, y)) (sym e)))
          | inr p ↦ rw p (
              next x
                (one_more replies waits i before passed
                  (record { error = x; is_refused = e; is_temporary = p }))
                e)
        ]

    after_wait-Ends :
        (k : ℕ) (go : ℕ → ℕ × Reply A) (o : Option Text)
        → 0 < k
        → k ≤ max
        → IsPending replies waits k
        → waits k ≡ o
        → (waits k ≡ none → Ends replies waits max (go k))
        → Ends replies waits max (after_wait config scale transport go (k, o))
    after_wait-Ends k go none pos small before e next = next e
    after_wait-Ends k go (some x) pos small before e next = at_wait k x pos small before e refl

    retry-Ends :
        (n i : ℕ) (backoff : ℕ) (last : CallError)
        → i + n ≡ max
        → IsPending replies waits (suc i)
        → replies i ≡ refused last
        → Ends replies waits max (retry config scale transport n backoff last (suc i))
    unfolding retry
    retry-Ends zero i backoff last h before e =
        let same : i ≡ max = omega (arith, h) in
        exhausted last (subst (λ k. IsPending replies waits (suc k)) same before)
          (subst (λ k. replies k ≡ refused last) same e)
          (ap (λ k. (suc k, refused (retries_exhausted max last))) same)
    retry-Ends (suc n) i backoff last h before e =
        after_wait-Ends (suc i)
          (λ w.
            after_reply config scale transport
              (retry config scale transport n (next_backoff config scale transport backoff))
              (transport.request w))
          (waits (suc i)) (omega arith) (omega (arith, h)) before refl
          (λ passed.
            after_reply-Ends n (suc i) _ (replies (suc i)) (omega (arith, h)) before (inr passed)
              refl (λ x before' e'. retry-Ends n (suc i) _ x (omega (arith, h)) before' e'))

-- Whatever the replies, the jitter, and the waits in which the context may be done: the client ends
-- after at most one request more than its retries, with the first reply that is an answer or a
-- permanent error; or with the error of the context, if it is done in a wait before that; or, if
-- there is no such reply and no such wait, with the last error, wrapped, after all of them.
pub execute_with_retry-Ends :
    {A F : Type 0} (config : RetryConfig F) (scale : F → ℕ → ℕ) (replies : ℕ → Reply A)
    (waits : ℕ → Option Text) (jitter : ℕ → ℕ → ℕ)
    → Ends replies waits
        (max_retries config scale (scripted replies waits jitter))
        (execute_with_retry config scale (scripted replies waits jitter) 0)
unfolding execute_with_retry
execute_with_retry-Ends config scale replies waits jitter =
    after_reply-Ends config scale replies waits jitter
      (max_retries config scale (scripted replies waits jitter)) 0 _ (replies 0) (omega arith)
      (record {
        retryable = λ j h. absurd (omega (arith, h));
        waited = λ j pos h. absurd (omega (arith, h));
      })
      (inl refl) refl
      (λ e before h.
        retry-Ends config scale replies waits jitter
          (max_retries config scale (scripted replies waits jitter)) 0 _ e (omega arith) before h)
