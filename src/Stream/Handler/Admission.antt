-- ===== src/Stream/Handler/Admission.antt =====
-- Which requests reach the data plane.
use icy_easy_send.Base.{
  ℕ, ◌≡◌, ◌≢◌, ◌↔◌, ◌⊎◌, inl, inr, refl, ap, sym, subst, ◌∙◌, String, Bool, true, false, Option,
  none, some, List, [], ◌==◌, eq_iff, ◌||◌, ok, arith, Result-cases, Bool-cases,
}
use icy_easy_send.Base.Text.{trim_prefix, contains_slash}
use icy_easy_send.Auth.{token_matches, parse_bearer, verify_stream_proof}
use icy_easy_send.Stream.Registry.{Stream, Registry, get, role}
use icy_easy_send.Stream.Handler.{
  Request, Options, Response, Route, refused, to_sender, to_receiver, authenticate, check_proof,
  by_method, by_role, by_stream, by_identity, serve_http,
}

-- Both admission layers: the server's token in the header, and a proof over the stream's id by the key
-- that the named device presented on the signaling plane.
pub record IsAuthentic (o : Options) (r : Request) (stream : String) : Type 0 where
  pub token : parse_bearer r.authorization ≡ o.token
  pub named : r.device_id ≢ ""
  pub key : List ℕ
  pub known : o.keys r.device_id ≡ some key
  pub proved : verify_stream_proof o.crypto key stream r.stream_proof ≡ ok tt

check_proof-ok :
    (o : Options) (r : Request) (stream d : String) (k : Option (List ℕ))
    → (check_proof o r stream k).0 ≡ ok d
    → (r.device_id ≡ d)
      × ((key : List ℕ) × (k ≡ some key)
          × (verify_stream_proof o.crypto key stream r.stream_proof ≡ ok tt))
unfolding check_proof
check_proof-ok o r stream d none h = absurd (ground arith)
check_proof-ok o r stream d (some key) h =
    elim (Result-cases (verify_stream_proof o.crypto key stream r.stream_proof)) [
      | inl (u, e) ↦ (ground arith, (key, refl, e))
      | inr (x, e) ↦ absurd (ground arith)
    ]

authenticate-ok :
    (o : Options) (r : Request) (stream d : String)
    → (authenticate o r stream).0 ≡ ok d
    → (r.device_id ≡ d) × IsAuthentic o r stream
unfolding authenticate token_matches
authenticate-ok o r stream d h =
    let c = check_proof-ok o r stream d (o.keys r.device_id) (ground (arith)) in
    let (key, known, proved) = c.1 in
    (
      c.0,
      record {
        token = ground (arith, eq_iff o.token (parse_bearer r.authorization));
        named = λ e. ground (arith, eq_iff r.device_id "");
        key = key;
        known = known;
        proved = proved;
      },
    )

authenticate-of :
    (o : Options) (r : Request) (stream : String)
    → IsAuthentic o r stream
    → authenticate o r stream ≡ (ok r.device_id, [])
unfolding authenticate token_matches check_proof
authenticate-of o r stream a =
    ground (
      arith,
      eq_iff o.token (parse_bearer r.authorization),
      eq_iff r.device_id "",
      a.known,
      a.proved,
    )

-- The request names a live stream in its path, and is authentic for it.
pub record Admits (o : Options) (r : Request) (reg : Registry) (s : Stream) : Type 0 where
  pub stream : String
  pub path : trim_prefix r.path "/v1/stream/" ≡ stream
  pub not_empty : stream ≢ ""
  pub whole : contains_slash stream ≡ false
  pub authentic : IsAuthentic o r stream
  pub listed : get stream reg ≡ ok s

-- What by_stream makes of the three ways on.
abbrev pub Serves : String → String → Stream → Route → Type 0
Serves method device s (to_sender t d) =
    (t ≡ s) × (d ≡ device) × (s.sender ≡ device) × (method ≡ "POST")
Serves method device s (to_receiver t) =
    (t ≡ s) × (s.receiver ≡ device) × (s.sender ≢ device) × (method ≡ "GET")
Serves method device s (refused response) = ⊥

by_role-Serves :
    (method device : String) (s : Stream)
    → Serves method device s (by_role method s device (role s device)).0
      ⊎ ((response : Response) × ((by_role method s device (role s device)).0 ≡ refused response))
unfolding by_role by_method role
by_role-Serves method device s = ground (
  arith,
  eq_iff method "POST",
  eq_iff method "GET",
  eq_iff device s.sender,
  eq_iff device s.receiver,
)

abbrev pub served : Route → Bool
served (refused response) = false
served (to_sender s d) = true
served (to_receiver s) = true

module _ (o : Options) (r : Request) (reg : Registry) where
  abbrev Located : Route → Type 0
  Located route =
      (s : Stream) × Admits o r reg s
      × ((by_role r.method s r.device_id (role s r.device_id)).0 ≡ route)

  by_stream-inv :
      (stream d : String) (route : Route)
      → served route ≡ true
      → (by_stream r.method d (get stream reg)).0 ≡ route
      → (s : Stream) × (get stream reg ≡ ok s) × ((by_role r.method s d (role s d)).0 ≡ route)
  unfolding by_stream
  by_stream-inv stream d route v h = elim (Result-cases (get stream reg)) [
    | inl (s, e) ↦ (s, e, rw (e, by_stream) at h)
    | inr (x, e) ↦ absurd (ground arith)
  ]

  by_identity-inv :
      (stream : String) (route : Route)
      → served route ≡ true
      → (by_identity r reg stream (authenticate o r stream)).0 ≡ route
      → IsAuthentic o r stream
        × ((s : Stream) × (get stream reg ≡ ok s)
            × ((by_role r.method s r.device_id (role s r.device_id)).0 ≡ route))
  unfolding by_identity
  by_identity-inv stream route v h = elim (Result-cases (authenticate o r stream).0) [
    | inl (d, e) ↦
        let (same, a) = authenticate-ok o r stream d e in
        (
          a,
          by_stream-inv stream r.device_id route v
              (rw (authenticate-of o r stream a, by_identity) at h),
        )
    | inr (x, e) ↦ absurd (ground arith)
  ]

  serve_http-inv :
      (route : Route) → served route ≡ true → (serve_http o r reg).0 ≡ route → Located route
  unfolding serve_http
  serve_http-inv route v h =
      let stream = trim_prefix r.path "/v1/stream/" in
      elim (Bool-cases ((stream == "") || contains_slash stream)) [
        | inl bad ↦ absurd (ground arith)
        | inr good ↦
            let (a, found) = by_identity-inv stream route v (rw (good, serve_http) at h) in
            let (s, listed, e) = found in
            (
              s,
              record {
                stream = stream;
                path = refl;
                not_empty = λ q. ground (arith, eq_iff stream "");
                whole = ground arith;
                authentic = a;
                listed = listed;
              },
              e,
            )
      ]

  serve_http-of :
      (s : Stream)
      → Admits o r reg s
      → (serve_http o r reg).0 ≡ (by_role r.method s r.device_id (role s r.device_id)).0
  unfolding serve_http by_identity by_stream
  serve_http-of s a =
      let stream = trim_prefix r.path "/v1/stream/" in
      let same : stream ≡ a.stream = a.path in
      let known : authenticate o r stream ≡ (ok r.device_id, []) =
        rw same (authenticate-of o r a.stream a.authentic) in
      let found : get stream reg ≡ ok s = rw same a.listed in
      let slash : contains_slash stream ≡ false = rw same a.whole in
      let filled : (stream == "") ≡ false = ground (arith, eq_iff stream "", a.not_empty) in
      rw (filled, slash, known, serve_http, by_identity, found, by_stream)

  pub Serves-of :
      (route : Route)
      → served route ≡ true
      → (serve_http o r reg).0 ≡ route
      → (s : Stream) × Admits o r reg s × Serves r.method r.device_id s route
  Serves-of route v h =
      let (s, a, e) = serve_http-inv route v h in
      elim (by_role-Serves r.method r.device_id s) [
        | inl ok' ↦ (s, a, subst (Serves r.method r.device_id s) e ok')
        | inr (response, e') ↦ absurd (cc (v, ap served (sym e ∙ e')))
      ]

  -- A request gets to send a stream's bytes exactly when its path names that live stream, it carries
  -- the server's token, it proves possession of the key that the device in its header presented on
  -- the signaling plane, that device is the stream's sender, and the method is POST.
  pub upload_iff :
      (s : Stream)
      → ((serve_http o r reg).0 ≡ to_sender s r.device_id)
        ↔ (Admits o r reg s × (s.sender ≡ r.device_id) × (r.method ≡ "POST"))
  unfolding by_role by_method role
  upload_iff s = (
    λ h.
        let (t, a, e) = Serves-of (to_sender s r.device_id) refl h in
        (subst (Admits o r reg) (sym e.0) a, ap (λ (x : Stream). x.sender) e.0 ∙ e.2, e.3),
    λ h.
        serve_http-of s h.0
        ∙ ground (arith, eq_iff r.device_id s.sender, eq_iff r.method "POST", h.1, h.2),
  )

  -- A request gets to receive a stream's bytes exactly when it is let through in the same way, its
  -- device is the stream's receiver and not also its sender, and the method is GET.
  pub download_iff :
      (s : Stream)
      → ((serve_http o r reg).0 ≡ to_receiver s) ↔ (
          Admits o r reg s
          × (s.receiver ≡ r.device_id)
          × (s.sender ≢ r.device_id)
          × (r.method ≡ "GET"))
  unfolding by_role by_method role
  download_iff s = (
    λ h.
        let (t, a, e) = Serves-of (to_receiver s) refl h in
        (
          subst (Admits o r reg) (sym e.0) a,
          ap (λ (x : Stream). x.receiver) e.0 ∙ e.1,
          λ q. e.2 (ap (λ (x : Stream). x.sender) (sym e.0) ∙ q),
          e.3,
        ),
    λ h.
        serve_http-of s h.0
        ∙ ground (
          arith,
          eq_iff r.device_id s.sender,
          eq_iff r.device_id s.receiver,
          eq_iff r.method "POST",
          eq_iff r.method "GET",
          h.1,
          h.2,
          h.3,
        ),
  )
