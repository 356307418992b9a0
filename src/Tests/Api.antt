-- ===== src/Tests/Api.antt =====
-- The client's callbacks and the address of a server at concrete replies.
use harbour_leyni.Prelude.{◌≡◌, refl, true, none, some, [], ◌++◌, codes, Bytes}
use harbour_leyni.Api.Types.{is_ok}
use harbour_leyni.Api.ServerConfig.{
  self_hosted, chop_slashes, ends_with, LosesSlashes, self_hosted_lem,
}
use harbour_leyni.Api.Client.{
  canceled, Reply, is_200, no_tokens, transport_failure, finished_prelogin, finished_token,
  finished_body,
}
use harbour_leyni.Api.Sound.{
  IsSettled, IsLogin, IsBodyOf, finished_token-IsSettled, finished_body-IsSettled,
}
use harbour_leyni.Tests.Vault.{qt}

abbrev timed_out : Reply
timed_out = record { failed = some canceled; http_status = 0; body = [] }

abbrev served : Reply
served = record { failed = none; http_status = 200; body = codes "{}" }

abbrev strange : Reply
strange = record { failed = none; http_status = 0; body = codes "{}" }

finished_token-IsSettled_example :
    IsSettled no_tokens (IsLogin qt timed_out) timed_out (finished_token qt timed_out)
finished_token-IsSettled_example = finished_token-IsSettled qt timed_out

finished_body-IsSettled_example :
    IsSettled [] (IsBodyOf is_200 served) served (finished_body is_200 "sync failed" served)
finished_body-IsSettled_example = finished_body-IsSettled is_200 "sync failed" served

-- A reply with neither a status nor a network error is a success with the default parameters.
strange_success : is_ok (finished_prelogin qt strange) ≡ true
unfolding finished_prelogin transport_failure
strange_success = refl

body_comes : (finished_body is_200 "sync failed" served).value ≡ codes "{}"
unfolding finished_body transport_failure
body_comes = refl

self_hosted_lem_example :
    (left : Bytes) × LosesSlashes (qt.trimmed (codes "https://vault.example//")) left
    × ((self_hosted qt (codes "https://vault.example//")).identity_base ≡ left ++ codes "/identity")
    × ((self_hosted qt (codes "https://vault.example//")).api_base ≡ left ++ codes "/api")
self_hosted_lem_example = self_hosted_lem qt (codes "https://vault.example//")

slashes_go : (self_hosted qt (codes "https://a.b//")).api_base ≡ codes "https://a.b/api"
unfolding self_hosted chop_slashes ends_with harbour_leyni.Api.ServerConfig.chop
slashes_go = refl
