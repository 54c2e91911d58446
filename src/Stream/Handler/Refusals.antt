-- ===== src/Stream/Handler/Refusals.antt =====
-- The requests that the data plane refuses: what the client and the operator are told.
use icy_easy_send.Base.{
  ◌≡◌, ◌≤◌, ◌⊎◌, inl, inr, refl, ap, String, Bool, true, List, [], ◌∷◌, ◌++◌, ◌&&◌, ◌||◌, ◌==◌,
  Result, ok, err, arith, Bool-cases, Option-cases, Result-cases,
}
use icy_easy_send.Base.Text.{trim_prefix, contains_slash}
use icy_easy_send.Protocol.{
  code_unauthorized, code_bad_identity, role_sender, role_receiver, http_status,
}
use icy_easy_send.Stream.Errors.{Error, plain}
use icy_easy_send.Stream.Registry.{Stream, Registry, get, role}
use icy_easy_send.Stream.Handler.{
  Request, Options, Event, auth_failure, error, failure, Route, refused, to_sender, to_receiver,
  write_error, refuse_identity, check_proof, authenticate, by_method, by_role, by_stream,
  by_identity, serve_http, error_code, code_of_text, error_text,
}

-- The code of a refusal has one of these statuses, and it is counted as an error once, behind the
-- admission failures `before`.
abbrev pub IsTold : List Event → Route × List Event → Type 0
IsTold before (refused response, events) =
    (code : String) × ((message : String) × ((response ≡ failure (http_status code) code message)
        × (400 ≤ http_status code)
        × (http_status code ≤ 404)
        × (events ≡ before ++ (error code ∷ []))))
IsTold before (to_sender s d, events) = (events ≡ []) × (before ≡ [])
IsTold before (to_receiver s, events) = (events ≡ []) × (before ≡ [])

by_method-IsTold :
    (method : String) (s : Stream) (device role : String)
    → IsTold [] (by_method method s device role)
unfolding by_method write_error http_status
by_method-IsTold method s device role =
    elim (Bool-cases ((method == "POST") && (role == role_sender))) [
      | inl e ↦ rw (e, by_method) (refl, refl)
      | inr e ↦ elim (Bool-cases ((method == "GET") && (role == role_receiver))) [
        | inl f ↦ rw (e, f, by_method) (refl, refl)
        | inr f ↦ rw (e, f, by_method) (_, (_, (refl, omega arith, omega arith, refl)))
      ]
    ]

by_stream-IsTold :
    (method device : String) (found : Result Error Stream)
    → IsTold [] (by_stream method device found)
unfolding by_stream by_role write_error http_status
by_stream-IsTold method device (err e) = (_, (_, (refl, omega arith, omega arith, refl)))
by_stream-IsTold method device (ok s) = elim (Result-cases (role s device)) [
  | inl (x, e) ↦ rw e (by_method-IsTold method s device x)
  | inr (x, e) ↦ rw e (_, (_, (refl, omega arith, omega arith, refl)))
]

-- The three ways that authenticate ends.
authenticate-cases :
    (o : Options) (r : Request) (s : String)
    → (authenticate o r s ≡ (ok r.device_id, []))
      ⊎ (authenticate o r s ≡ (err (plain code_unauthorized), auth_failure "token" ∷ []))
      ⊎ (authenticate o r s ≡ (err (plain code_bad_identity), auth_failure "identity" ∷ []))
unfolding authenticate check_proof refuse_identity
authenticate-cases o r s = ground (arith, Option-cases (o.keys r.device_id))

by_identity-IsTold :
    (r : Request) (reg : Registry) (s device : String)
    → IsTold [] (by_identity r reg s (ok device, []))
unfolding by_identity
by_identity-IsTold r reg s device = by_stream-IsTold r.method device (get s reg)

refused-IsTold :
    (r : Request) (reg : Registry) (s : String)
    → IsTold
        (auth_failure "token" ∷ [])
        (by_identity r reg s (err (plain code_unauthorized), auth_failure "token" ∷ []))
      × IsTold
          (auth_failure "identity" ∷ [])
          (by_identity r reg s (err (plain code_bad_identity), auth_failure "identity" ∷ []))
unfolding by_identity error_code code_of_text error_text write_error http_status
refused-IsTold r reg s = (
  (_, (_, (refl, omega arith, omega arith, refl))),
  (_, (_, (refl, omega arith, omega arith, refl))),
)

-- The path names no stream.
abbrev pub has_bad_path : Request → Bool
has_bad_path r = let s = trim_prefix r.path "/v1/stream/" in (s == "") || contains_slash s

-- Every refusal is told and counted, and tells a stranger nothing. A request that the data plane
-- refuses is answered with the status of a protocol code, from 400 to 404, and the same code is
-- counted as an error, once; one that it admits is counted nowhere. Either its path names no stream or
-- it is authenticated; or it is counted, before that, as an admission failure with its reason, and
-- its answer is the same whatever streams there are.
pub refusal_lem :
    (o : Options) (r : Request) (reg : Registry)
    → (IsTold [] (serve_http o r reg)
        × ((has_bad_path r ≡ true)
            ⊎ ((authenticate o r (trim_prefix r.path "/v1/stream/")).0 ≡ ok r.device_id)))
      ⊎ ((reason : String) × (((reason ≡ "token") ⊎ (reason ≡ "identity"))
            × IsTold (auth_failure reason ∷ []) (serve_http o r reg)
            × ((other : Registry) → serve_http o r other ≡ serve_http o r reg)))
unfolding serve_http write_error http_status by_identity
refusal_lem o r reg =
    let s = trim_prefix r.path "/v1/stream/" in
    elim (Bool-cases ((s == "") || contains_slash s)) [
      | inl bad ↦
          inl (rw (bad, serve_http) (_, (_, (refl, omega arith, omega arith, refl))), inl bad)
      | inr good ↦ elim (authenticate-cases o r s) [
        | inl e ↦ inl (
          rw (good, e, serve_http) (by_identity-IsTold r reg s r.device_id),
          inr (ap (λ x. x.0) e),
        )
        | inr (inl e) ↦ inr (
          "token",
          (
            inl refl,
            rw (good, e, serve_http) (refused-IsTold r reg s).0,
            λ other. rw (good, e, serve_http) refl,
          ),
        )
        | inr (inr e) ↦ inr (
          "identity",
          (
            inr refl,
            rw (good, e, serve_http) (refused-IsTold r reg s).1,
            λ other. rw (good, e, serve_http) refl,
          ),
        )
      ]
    ]
