-- ===== src/Api.antt =====
-- internal/api/handler.go and internal/api/health.go: what the handlers answer.
pub mod Statuses
use shortlink_system.Base.{
  ℕ, Option, none, some, List, [], ◌∷◌, Text, bytes, Bool, true, false, not, ◌==◌, if◌then◌else◌,
}
use shortlink_system.Redis.{Redis}
use shortlink_system.Service.{
  Weather, Answer, url, no_such_link, query_failed, ShortLinkService, redirect,
}
use shortlink_system.Creation.{
  Conditions, Creator, Created, short_url, empty_url, lookup_failed, clock_error, database_error,
  unfinished, create,
}

-- A response: JSON with an error, the two successes of the API, or a redirection.
pub data Response : Type 0 where
  json_error : ℕ → Response
  encoded : ℕ → Text → Response
  decoded : ℕ → Text → Text → Response
  redirection : ℕ → Text → Response

abbrev pub respond_error : ℕ → Response
respond_error status = json_error status

-- The status line of a response.
abbrev pub status_of : Response → ℕ
status_of (json_error status) = status
status_of (encoded status short) = status
status_of (decoded status code long) = status
status_of (redirection status long) = status

-- What the handlers make of the results of the service. `unfinished` is a call that has not returned.
unfoldable pub created_response : Created → Option Response
created_response (short_url u) = some (encoded 200 u)
created_response empty_url = some (respond_error 500)
created_response lookup_failed = some (respond_error 500)
created_response clock_error = some (respond_error 500)
created_response database_error = some (respond_error 500)
created_response unfinished = none

unfoldable pub decoded_response : Text → Answer → Response
decoded_response code (url long_url) = decoded 200 code long_url
decoded_response code no_such_link = respond_error 404
decoded_response code query_failed = respond_error 404

unfoldable pub redirect_response : Answer → Response
redirect_response (url long_url) = redirection 302 long_url
redirect_response no_such_link = respond_error 404
redirect_response query_failed = respond_error 404

module _ (r : Redis) where
  -- `bound` is the URL of the body if gin accepts it. The outer `none` is a panic, the inner one a call
  -- that has not returned.
  unfoldable pub generate_short_link :
      Conditions → Option Text → Creator r → Option (Creator r × Option Response)
  unfolding created_response
  generate_short_link t none s = some (s, some (respond_error 400))
  generate_short_link t (some long_url) s = elim (create r t long_url s) [
    | none ↦ none
    | some (s', result) ↦ some (s', created_response result)
  ]

  unfoldable pub decode :
      Weather → Option Answer → Text → ShortLinkService r → Option (ShortLinkService r × Response)
  unfolding decoded_response
  decode w shared code s = elim (redirect r w shared code s) [
    | none ↦ none
    | some (s', a) ↦ some (s', decoded_response code a)
  ]

  unfoldable pub redirect_handler :
      Weather → Option Answer → Text → ShortLinkService r → Option (ShortLinkService r × Response)
  unfolding redirect_response
  redirect_handler w shared code s = elim (redirect r w shared code s) [
    | none ↦ none
    | some (s', a) ↦ some (s', redirect_response a)
  ]

-- The three states of the readiness probe.
pub data Status : Type 0 where
  ready : Status
  not_ready : Status
  degraded : Status

pub record Readiness : Type 0 where
  pub code : ℕ
  pub status : Status
  pub mysql_master : Bool
  pub redis : Bool

abbrev pub live : ℕ
live = 200

-- The results of `PingMaster` and `PingRedis`.
unfoldable pub ready_check : Bool → Bool → Readiness
ready_check master redis =
    let code = if master then 200 else 503 in
    let status = if master then ready else not_ready in
    record {
      code = code;
      status = if not redis then (if code == 200 then degraded else status) else status;
      mysql_master = master;
      redis = redis;
    }
