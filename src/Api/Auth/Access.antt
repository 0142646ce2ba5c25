-- ===== src/Api/Auth/Access.antt =====
-- Who is let through by internal/api/middleware.go.
use driftd.Prelude.{
  ℕ, String, Bool, true, false, Option, none, some, List, ◌==◌, ◌≡◌, refl, ltb, leb, not, ◌&&◌,
  ◌||◌, if◌then◌else◌, Bool-cases, inl, inr, arith, has_prefix, ap, ◌∙◌,
}
use driftd.Config.{Config}
use driftd.Api.Requests.{Request, Verdict, served, refused, then_serve, passes}
use driftd.Api.Auth.{
  subject, groups_of, AuthRole, role_none, role_viewer, role_operator, role_admin, rank, max_role,
  role_verdict, role_matches_any, external_role, parse_external_default_role, use_external_auth,
  external_role_from_request, external_role_middleware, api_auth_middleware,
  api_write_auth_middleware, api_write_auth_enabled, api_auth_enabled, api_basic_authorized,
  presents, api_route, api_write_route, settings_route, settings_write_route,
  settings_auth_middleware,
}

reaches-max_role :
    (n : ℕ) (b : Bool) (role to : AuthRole)
    → leb n (rank (if b then max_role role to else role))
      ≡ (leb n (rank role) || (b && leb n (rank to)))
reaches-max_role n true role to = ground arith
reaches-max_role n false role to = ground arith

-- The role of a request reaches a required one exactly if the default role does, or a list that
-- its groups match stands for a role that does.
pub external_role-reaches :
    (c : Config) (groups : List String) (required : AuthRole)
    → leb (rank required) (rank (external_role c groups)) ≡ (
        leb (rank required) (rank (parse_external_default_role c))
        || (role_matches_any groups c.auth.external.viewers
            && leb (rank required) (rank role_viewer))
        || (role_matches_any groups c.auth.external.operators
            && leb (rank required) (rank role_operator))
        || (role_matches_any groups c.auth.external.admins
            && leb (rank required) (rank role_admin)))
external_role-reaches c groups required =
    let n = rank required in
    let v = role_matches_any groups c.auth.external.viewers in
    let o = role_matches_any groups c.auth.external.operators in
    let a = role_matches_any groups c.auth.external.admins in
    go n (parse_external_default_role c) v o a
  where
    or_assoc4 : (w x y z : Bool) → (((w || x) || y) || z) ≡ (w || x || y || z)
    or_assoc4 true x y z = refl
    or_assoc4 false x y z = ground arith

    go :
        (n : ℕ) (d : AuthRole) (v o a : Bool)
        → leb n (
            rank (
              let r = (if v then max_role d role_viewer else d) in
              let r' = (if o then max_role r role_operator else r) in
              if a then max_role r' role_admin else r'))
          ≡ (leb n (rank d) || (v && leb n 1) || (o && leb n 2) || (a && leb n 3))
    go n d v o a =
        let r = (if v then max_role d role_viewer else d) in
        let r' = (if o then max_role r role_operator else r) in
        reaches-max_role n a r' role_admin
        ∙ ap (λ x. x || (a && leb n 3))
            (reaches-max_role n o r role_operator
              ∙ ap (λ x. x || (o && leb n 2)) (reaches-max_role n v d role_viewer))
        ∙ or_assoc4 (leb n (rank d)) (v && leb n 1) (o && leb n 2) (a && leb n 3)

-- A stronger requirement lets fewer requests through.
role_verdict-weaker :
    (a b : AuthRole) (o : Option AuthRole)
    → leb (rank a) (rank b) ≡ true
    → role_verdict b o ≡ served
    → role_verdict a o ≡ served
role_verdict-weaker a b none h e = cc
role_verdict-weaker a b (some role) h e = elim (Bool-cases (ltb (rank role) (rank b))) [
  | inl x ↦ absurd (no (rw x at e))
  | inr x ↦ rw (weaker x) refl
]
  where
    no : ¬ (Verdict.refused 403 ≡ served)
    no e = cc

    weaker : ltb (rank role) (rank b) ≡ false → ltb (rank role) (rank a) ≡ false
    weaker x = ground arith

passes-weaker :
    (a b : AuthRole) (o : Option AuthRole)
    → leb (rank a) (rank b) ≡ true
    → passes (role_verdict b o) ≡ true
    → passes (role_verdict a o) ≡ true
passes-weaker a b o h e = go (role_verdict b o) refl e
  where
    go : (v : Verdict) → role_verdict b o ≡ v → passes v ≡ true → passes (role_verdict a o) ≡ true
    go served x e = ap passes (role_verdict-weaker a b o h x)
    go (refused n) x e = cc

passes-read :
    (c : Config) (r : Request)
    → use_external_auth c ≡ false
    → passes (api_auth_middleware c r) ≡ (
        c.webhook.enabled && has_prefix "/api/webhooks/" r.path
        || not (c.api_auth.token == "") && presents r c.api_auth.token_header c.api_auth.token
        || not (c.api_auth.write_token == "")
          && presents r c.api_auth.write_token_header c.api_auth.write_token
        || api_basic_authorized c r)
unfolding api_auth_middleware
passes-read c r h = rw h (ground arith)

-- Whoever may write may read: with write protection on, a request that the write middleware
-- serves is one that the read middleware serves.
pub api_write_auth-api_auth :
    (c : Config) (r : Request)
    → api_write_auth_enabled c ≡ true
    → passes (api_write_auth_middleware c r) ≡ true
    → passes (api_auth_middleware c r) ≡ true
unfolding api_write_auth_enabled api_write_auth_middleware api_auth_middleware
    external_role_middleware
api_write_auth-api_auth c r on e = elim (Bool-cases (use_external_auth c)) [
  | inl h ↦ external h (rw h at e)
  | inr h ↦ internal h (rw h at on) (rw h at e)
]
  where
    external :
        use_external_auth c ≡ true
        → passes (
            role_verdict
              (if has_prefix "/api/settings/" r.path then role_admin else role_operator)
              (external_role_from_request c r))
          ≡ true
        → passes (api_auth_middleware c r) ≡ true
    external h e =
        let viewer : passes (role_verdict role_viewer (external_role_from_request c r)) ≡ true =
          elim (Bool-cases (has_prefix "/api/settings/" r.path)) [
            | inl s ↦
                passes-weaker role_viewer role_admin (external_role_from_request c r) refl
                  (rw s at e)
            | inr s ↦
                passes-weaker role_viewer role_operator (external_role_from_request c r) refl
                  (rw s at e)
          ] in
        rw h (ground (arith, viewer))

    internal :
        use_external_auth c ≡ false
        → (not (c.api_auth.write_token == "")) ≡ true
        → passes (
            if not (not (c.api_auth.write_token == ""))
            then served
            else if presents r c.api_auth.write_token_header c.api_auth.write_token
            then served
            else if api_basic_authorized c r
            then served
            else refused 401)
          ≡ true
        → passes (api_auth_middleware c r) ≡ true
    internal h on e = passes-read c r h ∙ ground arith

-- The default role is admin, or a group of the request is one of the admins'.
abbrev pub is_admin : Config → Request → Bool
is_admin c r =
    leb 3 (rank (parse_external_default_role c))
    || role_matches_any (groups_of c r) c.auth.external.admins

admin_iff :
    (c : Config) (r : Request) → leb 3 (rank (external_role c (groups_of c r))) ≡ is_admin c r
admin_iff c r = external_role-reaches c (groups_of c r) role_admin ∙ ground arith

verdict_lem :
    (c : Config) (r : Request)
    → passes (role_verdict role_admin (external_role_from_request c r))
      ≡ (not (subject c r == "") && is_admin c r)
unfolding external_role_from_request
verdict_lem c r = go (subject c r == "") (external_role c (groups_of c r)) (admin_iff c r)
  where
    go :
        (b : Bool) (role : AuthRole)
        → leb 3 (rank role) ≡ is_admin c r
        → passes (role_verdict role_admin (if b then none else some role)) ≡ (not b && is_admin c r)
    go true role e = refl
    go false role_none e = e
    go false role_viewer e = e
    go false role_operator e = e
    go false role_admin e = e

-- Behind an external proxy, a change of the settings is let through exactly for a request that
-- names a user or an e-mail and has a group of the admins, unless the default role is admin.
pub settings_write_route-admin :
    (c : Config) (r : Request)
    → use_external_auth c ≡ true
    → passes (settings_write_route c r) ≡ (not (subject c r == "") && is_admin c r)
unfolding settings_write_route settings_route api_route settings_auth_middleware
    api_write_auth_middleware api_auth_middleware api_auth_enabled external_role_middleware
settings_write_route-admin c r h =
    rw h (
      go (external_role_from_request c r) (c.webhook.enabled && has_prefix "/api/webhooks/" r.path)
        (r.path == "/api/health") (has_prefix "/api/settings/" r.path))
    ∙ verdict_lem c r
  where
    go :
        (o : Option AuthRole) (w health settings : Bool)
        → passes (
            then_serve
              (then_serve
                (if w then served else if health then served else role_verdict role_viewer o)
                (role_verdict role_admin o))
              (role_verdict (if settings then role_admin else role_operator) o))
          ≡ passes (role_verdict role_admin o)
    go none w health settings = ground arith
    go (some role_none) w health settings = ground arith
    go (some role_viewer) w health settings = ground arith
    go (some role_operator) w health settings = ground arith
    go (some role_admin) true health true = refl
    go (some role_admin) true health false = refl
    go (some role_admin) false true true = refl
    go (some role_admin) false true false = refl
    go (some role_admin) false false true = refl
    go (some role_admin) false false false = refl

-- With a write token and no external proxy, a scan is started through the API exactly by a
-- request with the write token or with the credentials of the API.
pub api_write_route-token :
    (c : Config) (r : Request)
    → use_external_auth c ≡ false
    → (c.api_auth.write_token == "") ≡ false
    → passes (api_write_route c r) ≡ (
        presents r c.api_auth.write_token_header c.api_auth.write_token || api_basic_authorized c r)
unfolding api_write_route api_route api_write_auth_middleware api_auth_middleware api_auth_enabled
    api_write_auth_enabled
api_write_route-token c r h w = rw (h, w) (ground arith)
