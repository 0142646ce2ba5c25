-- ===== src/Api/Webhooks/Replays.antt =====
-- Deliveries that come again (internal/api/webhook.go).
use driftd.Prelude.{
  ℕ, String, Bool, true, false, Option, none, some, List, [], ◌∷◌, ◌==◌, ◌≡◌, ◌≤◌, ◌+◌, refl, sym,
  ap, ◌∙◌, ltb, leb, if◌then◌else◌, All, lookup, lookup-put, Bool-cases, inl, inr, arith, eq_iff,
  eq_refl, eq_false_of_ne,
}
use driftd.Config.{WebhookConfig}
use driftd.Api.Requests.{Request, Verdict, served, refused}
use driftd.Api.Webhooks.{
  Digests, Seen, expire, seen_recently, webhook_replay_key, remembered, record_webhook_delivery,
  webhook_replay_window, authentic, validate_webhook_request, recorded,
}

lookup-expire :
    (window now t : ℕ) (key : String) (m : Seen)
    → lookup key m ≡ some t
    → now ≤ t + window
    → lookup key (expire window now m) ≡ some t
lookup-expire window now t key [] h k = cc
lookup-expire window now t key ((j, u) ∷ m) h k = elim (Bool-cases (j == key)) [
  | inl b ↦
      let same : some u ≡ some t = rw b at h in
      let time : u ≡ t = cc in
      let fresh : ltb (u + window) now ≡ false = ground arith in rw (fresh, b) same
  | inr b ↦ elim (Bool-cases (ltb (u + window) now)) [
    | inl c ↦ rw c (lookup-expire window now t key m (rw b at h) k)
    | inr c ↦ rw (c, b) (lookup-expire window now t key m (rw b at h) k)
  ]
]

abbrev deliver : ℕ → String → Seen → Seen
deliver now key m = (record_webhook_delivery webhook_replay_window now key m).1

-- Deliveries, each at its time and with its key, one after the other.
abbrev pub deliver_all : List (ℕ × String) → Seen → Seen
deliver_all [] m = m
deliver_all ((now, key) ∷ ds) m =
    deliver_all ds (record_webhook_delivery webhook_replay_window now key m).1

refused-again :
    (now t : ℕ) (key : String) (m : Seen)
    → lookup key m ≡ some t
    → now ≤ t + webhook_replay_window
    → (record_webhook_delivery webhook_replay_window now key m).0 ≡ false
unfolding record_webhook_delivery
refused-again now t key m h k =
    let kept = lookup-expire webhook_replay_window now t key m h k in
    let recent : leb now (t + webhook_replay_window) ≡ true = ground arith in rw (kept, recent) refl

still-seen :
    (now t : ℕ) (key other : String) (m : Seen)
    → lookup key m ≡ some t
    → now ≤ t + webhook_replay_window
    → lookup key (deliver now other m) ≡ some t
unfolding record_webhook_delivery
still-seen now t key other m h k = go (lookup other (expire webhook_replay_window now m)) refl
  where
    kept : lookup key (expire webhook_replay_window now m) ≡ some t
    kept = lookup-expire webhook_replay_window now t key m h k

    clash : {o : Option ℕ} → o ≡ none → o ≡ some t → ⊥
    clash a b = cc

    go :
        (o : Option ℕ)
        → lookup other (expire webhook_replay_window now m) ≡ o
        → lookup key
            (remembered
              (seen_recently webhook_replay_window now o)
              now
              other
              (expire webhook_replay_window now m)).1
          ≡ some t
    go none e =
        let seen = expire webhook_replay_window now m in
        let different : (other == key) ≡ false =
          eq_false_of_ne other key (λ q. clash (sym (ap (λ x. lookup x seen) q) ∙ e) kept) in
        lookup-put other now key (expire webhook_replay_window now m) ∙ rw different kept
    go (some u) e = elim (Bool-cases (other == key)) [
      | inl b ↦
          let at_key : lookup key (expire webhook_replay_window now m) ≡ some u =
            ap (λ x. lookup x (expire webhook_replay_window now m)) (sym ((eq_iff other key).0 b))
            ∙ e in
          let both : some u ≡ some t = sym at_key ∙ kept in
          let time : u ≡ t = cc in
          let recent : leb now (u + webhook_replay_window) ≡ true = ground arith in rw recent kept
      | inr b ↦ elim (Bool-cases (leb now (u + webhook_replay_window))) [
        | inl c ↦ rw c kept
        | inr c ↦ rw c (lookup-put other now key (expire webhook_replay_window now m) ∙ rw b kept)
      ]
    ]

deliver_all-seen :
    (t : ℕ) (key : String) (ds : List (ℕ × String)) (m : Seen)
    → lookup key m ≡ some t
    → All (λ d. d.0 ≤ t + webhook_replay_window) ds
    → lookup key (deliver_all ds m) ≡ some t
deliver_all-seen t key [] m h k = h
deliver_all-seen t key ((now, other) ∷ ds) m h (a, k) =
    deliver_all-seen t key ds (deliver now other m) (still-seen now t key other m h a) k

-- The delivery is in the map once its request is served.
served-seen :
    (d : Digests) (w : WebhookConfig) (now : ℕ) (r : Request) (body : String) (m : Seen)
    → (validate_webhook_request d w now r body m).0 ≡ served
    → (authentic d w r body ≡ true)
      × (lookup (webhook_replay_key d r body) (validate_webhook_request d w now r body m).1
          ≡ some now)
unfolding validate_webhook_request record_webhook_delivery
served-seen d w now r body m e = elim (Bool-cases (authentic d w r body)) [
  | inl a ↦ (
    a,
    rw a (
        go
          (seen_recently webhook_replay_window now
            (lookup (webhook_replay_key d r body) (expire webhook_replay_window now m)))
          (rw a at e)),
  )
  | inr a ↦ absurd (no (rw a at e))
]
  where
    no : ¬ (Verdict.refused 401 ≡ served)
    no x = cc

    go :
        (b : Bool)
        → (recorded
            (remembered b now (webhook_replay_key d r body) (expire webhook_replay_window now m))).0
          ≡ served
        → lookup
            (webhook_replay_key d r body)
            (recorded (
              remembered b now
                (webhook_replay_key d r body)
                (expire webhook_replay_window now m))).1
          ≡ some now
    go true x = cc
    go false x =
        rw
          (
            lookup-put (webhook_replay_key d r body) now (webhook_replay_key d r body)
                (expire webhook_replay_window now m),
            eq_refl (webhook_replay_key d r body),
          )
          refl

-- A webhook request that was served is answered with 202 and not served when it comes again
-- within 15 minutes, whatever deliveries come in between in that time.
pub validate_webhook_request-again :
    (d : Digests) (w : WebhookConfig) (now later : ℕ) (r : Request) (body : String)
    (ds : List (ℕ × String)) (m : Seen)
    → (validate_webhook_request d w now r body m).0 ≡ served
    → All (λ x. x.0 ≤ now + webhook_replay_window) ds
    → later ≤ now + webhook_replay_window
    → (validate_webhook_request d w later r body
        (deliver_all ds (validate_webhook_request d w now r body m).1)).0
      ≡ refused 202
unfolding validate_webhook_request
validate_webhook_request-again d w now later r body ds m e a l =
    let (genuine, seen) = served-seen d w now r body m e in
    let m' = deliver_all ds (validate_webhook_request d w now r body m).1 in
    let again =
      refused-again later now (webhook_replay_key d r body) m'
        (deliver_all-seen now (webhook_replay_key d r body) ds _ seen a) l in
    ap
      (λ b.
        (if b
          then recorded
              (record_webhook_delivery webhook_replay_window later (webhook_replay_key d r body) m')
          else (refused 401, m')).0)
      genuine
    ∙ go (record_webhook_delivery webhook_replay_window later (webhook_replay_key d r body) m')
        again
  where
    go : (p : Bool × Seen) → p.0 ≡ false → (recorded p).0 ≡ refused 202
    go (true, x) h = cc
    go (false, x) h = refl
