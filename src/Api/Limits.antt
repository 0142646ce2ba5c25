-- ===== src/Api/Limits.antt =====
-- internal/api/middleware.go: the rate limiters per address, which address a request has, and the check of
-- the form token. Package net and package rate are parameters.
use driftd.Prelude.{
  ℕ, String, Bool, true, false, Option, none, some, List, [], ◌∷◌, ◌==◌, ◌≡◌, refl, ◌+◌, ◌-◌, pos,
  ltb_ℤ, pos_part, ◌≤◌, ltb, not, ◌&&◌, ◌||◌, if◌then◌else◌, to_lower, trim_space, split, Map,
  lookup, put, lookup-put, length, arith, eq_iff, ap, ◌∙◌, sym, Bool-cases, inl, inr, get_or,
}
use driftd.Config.{Config}
use driftd.Api.Requests.{Request, Verdict, served, refused}

-- What net.ParseIP finds out of an address.
pub record Ip : Type 0 where
  pub is_loopback : Bool
  pub is_private : Bool

-- net.SplitHostPort, `none` for an error, and net.ParseIP
pub record Net : Type 0 where
  pub split_host_port : String → Option String
  pub parse_ip : String → Option Ip

unfoldable pub peer_ip_from_remote_addr : Net → String → Option Ip
peer_ip_from_remote_addr n addr = n.parse_ip (get_or (n.split_host_port addr) addr)

abbrev loopback_or_private : Option Ip → Bool
loopback_or_private none = false
loopback_or_private (some ip) = ip.is_loopback || ip.is_private

abbrev loopback : Option Ip → Bool
loopback none = false
loopback (some ip) = ip.is_loopback

abbrev pub first_of : List String → String
first_of [] = ""
first_of (x ∷ xs) = x

abbrev pub trust_proxy : Net → Config → Request → Bool
trust_proxy n c r =
    if c.api.trust_proxy
    then true
    else loopback_or_private (peer_ip_from_remote_addr n r.remote_addr)

unfoldable pub client_ip : Net → Config → Request → String
client_ip n c r =
    let forwarded = r.header "X-Forwarded-For" in
    let real_ip = r.header "X-Real-IP" in
    if not (forwarded == "") && trust_proxy n c r
    then trim_space (first_of (split "," forwarded))
    else if not (real_ip == "") && trust_proxy n c r
    then real_ip
    else get_or (n.split_host_port r.remote_addr) r.remote_addr

unfoldable pub is_https_request : Request → Bool
is_https_request r = if r.tls then true else to_lower (r.header "X-Forwarded-Proto") == "https"

unfoldable pub is_localhost_request : Net → Request → Bool
is_localhost_request n r = loopback (peer_ip_from_remote_addr n r.remote_addr)

unfoldable pub should_bypass_csrf_check : Net → Config → Request → Bool
should_bypass_csrf_check n c r =
    c.insecure_dev_mode && not (is_https_request r) && is_localhost_request n r

-- The cookie's token, or the generated one, which becomes the cookie's; generateToken gives an empty text
-- when the source of random bytes fails.
abbrev cookie_token : Option String → String → String
cookie_token none generated = generated
cookie_token (some value) generated = if value == "" then generated else value

unfoldable pub ensure_csrf_token : Request → String → String
ensure_csrf_token r generated = cookie_token r.csrf_cookie generated

abbrev check_form : Option String → String → Verdict
check_form none token = refused 400
check_form (some field) token = if field == "" || not (field == token) then refused 400 else served

unfoldable pub csrf_middleware : Net → Config → String → Request → Verdict
csrf_middleware n c generated r =
    if r.method == "POST" && not (should_bypass_csrf_check n c r)
    then check_form r.csrf_field (ensure_csrf_token r generated)
    else served

-- A limiter with the time at which it was last asked for; the unit of the clock is left open.
abbrev pub Limiters : Type 0 → Type 0
Limiters L = Map (L × ℕ)

abbrev pub rate_per_minute : Config → ℕ
rate_per_minute c =
    if ltb_ℤ (pos 0) c.api.rate_limit_per_minute then pos_part c.api.rate_limit_per_minute else 60

module _ {L : Type 0} where
  -- for key, entry := range s.rateLimiters { if entry.lastSeen.Before(cutoff) { delete } }
  abbrev pub prune : ℕ → Limiters L → Limiters L
  prune cutoff [] = []
  prune cutoff ((k, (l, seen)) ∷ m) =
      let rest = prune cutoff m in if ltb seen cutoff then rest else (k, (l, seen)) ∷ rest

  abbrev pub limiter_of :
      (ℕ → L) → Config → ℕ → ℕ → ℕ → String → Limiters L → Option (L × ℕ) → L × Limiters L
  limiter_of make c window now later ip m (some (l, seen)) = (l, put ip (l, now) m)
  limiter_of make c window now later ip m none =
      let l = make (rate_per_minute c) in
      let m' = put ip (l, now) m in
      (l, (if ltb 1000 (length m') then prune (later - window) m' else m'))

  -- `make` is rate.NewLimiter for a rate per minute, `now` and `later` are two readings of the clock.
  unfoldable pub get_rate_limiter :
      (ℕ → L) → Config → ℕ → ℕ → ℕ → String → Limiters L → L × Limiters L
  get_rate_limiter make c window now later ip m =
      limiter_of make c window now later ip m (lookup ip m)

-- Without trust in the peer, the address that is limited does not depend on any header.
pub client_ip-headers :
    (n : Net) (c : Config) (r : Request) (h : String → String)
    → trust_proxy n c r ≡ false
    → client_ip n c (record r { header = h }) ≡ client_ip n c r
unfolding client_ip
client_ip-headers n c r h e = rw e (ground arith)

-- Outside of development on the local host, a POST is served only if its form holds the token of
-- the cookie, or the one that is now generated if there is none, and never with an empty one.
pub csrf_middleware-token :
    (n : Net) (c : Config) (generated : String) (r : Request)
    → (r.method == "POST") ≡ true
    → should_bypass_csrf_check n c r ≡ false
    → csrf_middleware n c generated r ≡ served
    → (r.csrf_field ≡ some (ensure_csrf_token r generated))
      × ((ensure_csrf_token r generated == "") ≡ false)
unfolding csrf_middleware ensure_csrf_token
csrf_middleware-token n c generated r m b e =
    go r.csrf_field (ensure_csrf_token r generated) (rw (m, b) at e)
  where
    go :
        (field : Option String) (token : String)
        → check_form field token ≡ served
        → (field ≡ some token) × ((token == "") ≡ false)
    go none token e = cc
    go (some f) token e =
        let same : (f == token) ≡ true = ground arith in
        (ap some ((eq_iff f token).0 same), grind (arith, eq_iff f token))

module _ {L : Type 0} where
  abbrev limiter_in : Option (L × ℕ) → Option L
  limiter_in none = none
  limiter_in (some (l, seen)) = some l

  abbrev pub limiter_at : String → Limiters L → Option L
  limiter_at j m = limiter_in (lookup j m)

  shown :
      (j : String) (m : Limiters L) {o : Option (L × ℕ)}
      → lookup j m ≡ o
      → limiter_at j m ≡ limiter_in o
  shown j m e = ap limiter_in e

  seen_of : (p q : L × ℕ) → some p ≡ some q → p.1 ≡ q.1
  seen_of p q e = ap (λ o. (get_or {A = L × ℕ} o p).1) e

  lookup-prune :
      (cutoff : ℕ) (j : String) (l : L) (seen : ℕ) (m : Limiters L)
      → lookup j m ≡ some (l, seen)
      → cutoff ≤ seen
      → lookup j (prune cutoff m) ≡ some (l, seen)
  lookup-prune cutoff j l seen [] h k = cc
  lookup-prune cutoff j l seen ((i, (x, t)) ∷ m) h k = elim (Bool-cases (i == j)) [
    | inl b ↦
        let same : some (x, t) ≡ some (l, seen) = rw b at h in
        let time : t ≡ seen = seen_of (x, t) (l, seen) same in
        let fresh : ltb t cutoff ≡ false = ground arith in rw (fresh, b) same
    | inr b ↦ elim (Bool-cases (ltb t cutoff)) [
      | inl c ↦ rw c (lookup-prune cutoff j l seen m (rw b at h) k)
      | inr c ↦ rw (c, b) (lookup-prune cutoff j l seen m (rw b at h) k)
    ]
  ]

  -- An address keeps its limiter, and with it what it has used up, for as long as the limiter was
  -- asked for within the window, whichever address asks.
  pub get_rate_limiter-kept :
      (make : ℕ → L) (c : Config) (window now later : ℕ) (ip j : String) (m : Limiters L) (l : L)
      (seen : ℕ)
      → lookup j m ≡ some (l, seen)
      → later ≤ seen + window
      → (limiter_at j (get_rate_limiter make c window now later ip m).1 ≡ some l)
  unfolding get_rate_limiter
  get_rate_limiter-kept make c window now later ip j m l seen h k = go (lookup ip m) refl
    where
      go :
          (o : Option (L × ℕ))
          → lookup ip m ≡ o
          → limiter_at j (limiter_of make c window now later ip m o).1 ≡ some l
      go (some (x, t)) e = elim (Bool-cases (ip == j)) [
        | inl b ↦
            let same : some (x, t) ≡ some (l, seen) =
              sym e ∙ ap (λ i. lookup i m) ((eq_iff ip j).0 b) ∙ h in
            shown j _ {o = some (x, now)} (lookup-put ip (x, now) j m ∙ rw b refl)
            ∙ ap limiter_in same
        | inr b ↦ shown j _ {o = some (l, seen)} (lookup-put ip (x, now) j m ∙ rw b h)
      ]
      go none e =
          let other : (ip == j) ≡ false = grind (arith, eq_iff ip j) in
          let n = put ip (make (rate_per_minute c), now) m in
          let kept : lookup j n ≡ some (l, seen) = lookup-put ip _ j m ∙ rw other h in
          elim (Bool-cases (ltb 1000 (length n))) [
            | inl b ↦ rw b (shown j _ (lookup-prune (later - window) j l seen n kept (omega arith)))
            | inr b ↦ rw b (shown j _ kept)
          ]
