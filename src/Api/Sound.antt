-- ===== src/Api/Sound.antt =====
-- What the callbacks of src/api/apiclient.cpp get: a result that is `ok` is what a good reply says.
use harbour_leyni.Prelude.{
  ℕ, zero, suc, ◌≡◌, ◌≢◌, ◌⊎◌, inl, inr, refl, arith, ◌==◌, ==_iff, not, Bool, true, false, [],
  Bytes, is_empty, String, Option, none, some, Option-cases, Bool-cases, either, codes,
  if◌then◌else◌,
}
use harbour_leyni.Vault.Json.{
  Json, undefined, null, fraction, boolean, number, string, array, object, Fields, to_string, value,
}
use harbour_leyni.Vault.Qt.{Qt}
use harbour_leyni.Api.Types.{
  Message, TokenResponse, ApiError, no_error, Outcome, is_ok, is_no_error,
}
use harbour_leyni.Api.Responses.{
  Parsed, accepted, refused, parse_prelogin_response, object_of, token_fields, parse_token_response,
  with_providers, token_error_of, parse_token_error,
}
use harbour_leyni.Api.Client.{
  NetworkError, canceled, broken, Reply, transport_error, transport_failure, parsed_outcome,
  fails_with, is_200, no_params, no_tokens, finished_prelogin, finished_token, finished_body,
}

-- A reply with neither a network error nor a status.
abbrev pub HasNoAnswer : Reply → Type 0
HasNoAnswer reply = (reply.failed ≡ none) × (reply.http_status ≡ 0)

-- What a callback gets: the value of a good reply, an error with the default value, or, for a reply
-- with no answer, the default value with no error.
abbrev pub IsSettled {ℓ} : {A : Type ℓ} → A → (A → Type 0) → Reply → Outcome A → Type ℓ
IsSettled default IsGood reply result =
    (IsGood result.value × (result.error ≡ no_error))
    ⊎ ((is_ok result ≡ false) × (result.value ≡ default))
    ⊎ (HasNoAnswer reply × (is_ok result ≡ true) × (result.value ≡ default))

transport_error-is_no_error : (e : NetworkError) → is_no_error (transport_error e) ≡ false
unfolding transport_error
transport_error-is_no_error canceled = refl
transport_error-is_no_error (broken text) = refl

transport_failure-cases :
    (failed : Option NetworkError) (status : ℕ)
    → ((e : ApiError) × (transport_failure failed status ≡ some e) × (is_no_error e ≡ false))
      ⊎ ((transport_failure failed status ≡ none) × ((failed ≡ none) ⊎ (status ≢ 0)))
unfolding transport_failure
transport_failure-cases none status = inr (refl, inl refl)
transport_failure-cases (some e) zero = inl (transport_error e, refl, transport_error-is_no_error e)
transport_failure-cases (some e) (suc n) = inr (ground arith, inr (omega arith))

-- The error of a reply with this status, which is no error if there is no status.
abbrev IsOf : ℕ → ApiError → Type 0
IsOf status e = (e.http_status ≡ status) × (e.network_error ≡ false)

bad-IsSettled {ℓ} :
    {A : Type ℓ} (default : A) (IsGood : A → Type 0) (reply : Reply) (bad : ApiError)
    → IsOf reply.http_status bad
    → (reply.failed ≡ none) ⊎ (reply.http_status ≢ 0)
    → IsSettled default IsGood reply (fails_with default bad)
bad-IsSettled default IsGood reply bad h answer = elim (Bool-cases (reply.http_status == 0)) [
  | inr some_status ↦ inr (inl (ground (arith, h.0, some_status), refl))
  | inl no_status ↦ elim answer [
    | inl no_failure ↦ inr (
        inr (
          (no_failure, (==_iff reply.http_status 0).0 no_status),
          ground (arith, h.0, h.1, no_status),
          refl,
        ))
    | inr some_status ↦ absurd (ground (arith, some_status, no_status))
  ]
]

-- The shape of every callback: the transport's failure, a bad status, a good reply.
settle {ℓ} :
    {A : Type ℓ} (default : A) (IsGood : A → Type 0) (reply : Reply) (bad : ApiError)
    (good : Outcome A) (is_good : Bool)
    → IsOf reply.http_status bad
    → (is_good ≡ true → IsSettled default IsGood reply good)
    → IsSettled default IsGood reply (elim (transport_failure reply.failed reply.http_status) [
      | some e ↦ fails_with default e
      | none ↦ if not is_good then fails_with default bad else good
    ])
settle default IsGood reply bad good true bad_error good_reply =
    elim (transport_failure-cases reply.failed reply.http_status) [
      | inl (e, failed, is_error) ↦ rw failed (inr (inl (is_error, refl)))
      | inr (no_failure, answer) ↦ rw no_failure (good_reply refl)
    ]
settle default IsGood reply bad good false bad_error good_reply =
    elim (transport_failure-cases reply.failed reply.http_status) [
      | inl (e, failed, is_error) ↦ rw failed (inr (inl (is_error, refl)))
      | inr (no_failure, answer) ↦
          rw no_failure (bad-IsSettled default IsGood reply bad bad_error answer)
    ]

Parsed-cases {ℓ} :
    {A : Type ℓ} (parsed : Parsed A)
    → ((v : A) × (parsed ≡ accepted v)) ⊎ ((m : Message) × (parsed ≡ refused m))
Parsed-cases (accepted v) = inl (v, refl)
Parsed-cases (refused m) = inr (m, refl)

parsed-IsSettled {ℓ} :
    {A : Type ℓ} (default : A) (IsGood : A → Type 0) (reply : Reply) (parsed : Parsed A)
    → reply.http_status ≡ 200
    → ((v : A) → parsed ≡ accepted v → IsGood v)
    → IsSettled default IsGood reply (parsed_outcome default reply.http_status parsed)
unfolding parsed_outcome
parsed-IsSettled default IsGood reply (accepted v) h is_good = inl (is_good v refl, refl)
parsed-IsSettled default IsGood reply (refused m) h is_good = inr (inl (ground (arith, h), refl))

with_providers-IsOf :
    (qt : Qt) (v : Json) (e : ApiError) (status : ℕ)
    → IsOf status e
    → IsOf status (with_providers qt v e)
unfolding with_providers
with_providers-IsOf qt undefined e status h = h
with_providers-IsOf qt null e status h = h
with_providers-IsOf qt fraction e status h = h
with_providers-IsOf qt (boolean b) e status h = h
with_providers-IsOf qt (number n) e status h = h
with_providers-IsOf qt (string s) e status h = h
with_providers-IsOf qt (array vs) e status h = h
with_providers-IsOf qt (object fields) e status h = h

parse_token_error-IsOf :
    (qt : Qt) (status : ℕ) (body : Bytes) → IsOf status (parse_token_error qt status body)
unfolding parse_token_error token_error_of
parse_token_error-IsOf qt status body = elim (Option-cases (object_of qt body)) [
  | inl e ↦ rw (parse_token_error, e) (refl, refl)
  | inr (obj, e) ↦ rw (parse_token_error, e) (with_providers-IsOf qt _ _ status (refl, refl))
]

abbrev HasToken : Parsed TokenResponse → Type 0
HasToken parsed =
    (tokens : TokenResponse) → parsed ≡ accepted tokens → is_empty tokens.access_token ≡ false

token_fields-HasToken : (obj : Fields) → HasToken (token_fields obj)
unfolding token_fields
token_fields-HasToken obj =
    either HasToken (is_empty (to_string (value obj (codes "access_token"))))
      (λ missing tokens h. cc h) (λ there tokens h. cc (h, there))

parse_token_response-HasToken : (qt : Qt) (body : Bytes) → HasToken (parse_token_response qt body)
unfolding parse_token_response
parse_token_response-HasToken qt body = elim (Option-cases (object_of qt body)) [
  | inl e ↦ rw (parse_token_response, e) (λ tokens h. cc h)
  | inr (obj, e) ↦ rw (parse_token_response, e) (token_fields-HasToken obj)
]

-- A body that the parser takes came with status 200.
abbrev pub IsTakenBy {ℓ} : {A : Type ℓ} → (Bytes → Parsed A) → Reply → A → Type ℓ
IsTakenBy parse reply v = (reply.http_status ≡ 200) × (parse reply.body ≡ accepted v)

-- For every reply to `prelogin`: parameters come only from a body that a reply with status 200 has,
-- and any other outcome is an error with the default parameters, unless the reply has neither a
-- status nor a network error: then the default parameters come as a success.
pub finished_prelogin-IsSettled :
    (qt : Qt) (reply : Reply)
    → IsSettled no_params
        (IsTakenBy (parse_prelogin_response qt) reply)
        reply
        (finished_prelogin qt reply)
unfolding finished_prelogin
finished_prelogin-IsSettled qt reply =
    settle no_params (IsTakenBy (parse_prelogin_response qt) reply) reply _ _
      (is_200 reply.http_status) (refl, refl)
      (λ yes.
        let ok_status : reply.http_status ≡ 200 = (==_iff reply.http_status 200).0 yes in
        parsed-IsSettled no_params (IsTakenBy (parse_prelogin_response qt) reply) reply
          (parse_prelogin_response qt reply.body) ok_status (λ v e. (ok_status, e)))

abbrev pub IsLogin : Qt → Reply → TokenResponse → Type 0
IsLogin qt reply tokens =
    IsTakenBy (parse_token_response qt) reply tokens × (is_empty tokens.access_token ≡ false)

-- For every reply to a token request: tokens come only from a body that a reply with status 200
-- has, with an access token that is not empty, and any other outcome is an error with no tokens,
-- unless the reply has neither a status nor a network error: then a result with no tokens is `ok`.
pub finished_token-IsSettled :
    (qt : Qt) (reply : Reply)
    → IsSettled no_tokens (IsLogin qt reply) reply (finished_token qt reply)
unfolding finished_token
finished_token-IsSettled qt reply =
    settle no_tokens (IsLogin qt reply) reply _ _ (is_200 reply.http_status)
      (parse_token_error-IsOf qt reply.http_status reply.body)
      (λ yes.
        let ok_status : reply.http_status ≡ 200 = (==_iff reply.http_status 200).0 yes in
        parsed-IsSettled no_tokens (IsLogin qt reply) reply (parse_token_response qt reply.body)
          ok_status (λ v e. ((ok_status, e), parse_token_response-HasToken qt reply.body v e)))

abbrev pub IsBodyOf : (ℕ → Bool) → Reply → Bytes → Type 0
IsBodyOf is_good reply body = (is_good reply.http_status ≡ true) × (body ≡ reply.body)

-- For every reply to a call that wants the body: the body comes only with a status that the call
-- accepts, and any other outcome is an error with no body, unless the reply has neither a status
-- nor a network error: then an empty body comes as a success.
pub finished_body-IsSettled :
    (is_good : ℕ → Bool) (failure : String) (reply : Reply)
    → IsSettled [] (IsBodyOf is_good reply) reply (finished_body is_good failure reply)
unfolding finished_body
finished_body-IsSettled is_good failure reply =
    settle [] (IsBodyOf is_good reply) reply _ _ (is_good reply.http_status) (refl, refl)
      (λ yes. inl ((yes, refl), refl))
