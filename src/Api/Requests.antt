-- ===== src/Api/Requests.antt =====
-- What the middlewares read of a request, and how they answer. A header that is not
-- set reads as the empty text, as in net/http.
use driftd.Prelude.{String, Bool, true, false, Option, ℕ}

pub record Request : Type 0 where
  pub path : String
  pub method : String
  -- r.Header.Get
  pub header : String → String
  -- r.BasicAuth
  pub basic_auth : Option (String × String)
  -- r.TLS is not nil
  pub tls : Bool
  pub remote_addr : String
  -- the cookie driftd_csrf, if it is set
  pub csrf_cookie : Option String
  -- r.FormValue("csrf_token"), `none` for a form that does not parse
  pub csrf_field : Option String

-- `next.ServeHTTP`, or an answer with an HTTP status.
pub data Verdict : Type 0 where
  served : Verdict
  refused : ℕ → Verdict

abbrev pub passes : Verdict → Bool
passes served = true
passes (refused n) = false

-- One middleware in front of another handler.
abbrev pub then_serve : Verdict → Verdict → Verdict
then_serve served v = v
then_serve (refused n) v = refused n
