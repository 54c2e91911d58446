-- ===== src/Config/Validation.antt =====
-- What a configuration that is accepted satisfies.
use Prim.Native.String.{len}
use icy_easy_send.Base.{
  ℕ, ◌≡◌, ◌≢◌, ◌≤◌, ◌↔◌, ◌⊎◌, inl, inr, refl, String, Bool, false, not, Option, none, some, ltb,
  ◌==◌, eq_iff, if◌then◌else◌, Result, ok, err, subst, ◌>>=◌, arith, Option-cases, String-cases,
}
use icy_easy_send.Base.Int.{ℤ, pos, negsuc, lt_int}
use icy_easy_send.Config.{
  seconds, Config, ConfigError, Parsers, validate, is_level, checked, load, number_or, differ,
}

-- The number is a natural number in these bounds.
abbrev pub IsBetween : ℕ → ℕ → ℤ → Type 0
IsBetween low high (pos n) = (low ≤ n) × (n ≤ high)
IsBetween low high (negsuc n) = ⊥

abbrev pub IsAtLeast : ℕ → ℤ → Type 0
IsAtLeast low (pos n) = low ≤ n
IsAtLeast low (negsuc n) = ⊥

-- A configuration that the server can run with.
abbrev pub IsSafe : Config → Type 0
IsSafe c =
    (32 ≤ len c.token)
    × (((c.tls_cert ≡ "") × (c.tls_key ≡ "")) ⊎ ((c.tls_cert ≢ "") × (c.tls_key ≢ "")))
    × IsBetween 1 64 c.max_concurrent_streams
    × IsAtLeast 0 c.max_stream_bytes
    × IsAtLeast 0 c.rate_limit_bps
    × IsAtLeast 1 c.pair_rate_per_min
    × IsAtLeast 1 c.stream_rendezvous_timeout
    × IsAtLeast 1 c.stream_idle_timeout
    × ((c.log_level ≡ "debug")
        ⊎ (c.log_level ≡ "info")
        ⊎ (c.log_level ≡ "warn")
        ⊎ (c.log_level ≡ "error"))

at_least : (n : ℕ) (z : ℤ) → (lt_int z (pos n) ≡ false) ↔ IsAtLeast n z
at_least n (pos m) = (λ h. ground arith, λ h. ground arith)
at_least n (negsuc m) = (λ h. absurd (ground arith), λ h. absurd h)

positive : (z : ℤ) → (not (lt_int (pos 0) z) ≡ false) ↔ IsAtLeast 1 z
positive (pos m) = (λ h. ground arith, λ h. ground arith)
positive (negsuc m) = (λ h. absurd (ground arith), λ h. absurd h)

between : (z : ℤ) → ((lt_int z (pos 1) ≡ false) × (lt_int (pos 64) z ≡ false)) ↔ IsBetween 1 64 z
between (pos m) = (λ h. ground arith, λ h. ground arith)
between (negsuc m) = (λ h. absurd (ground arith), λ h. absurd h)

abbrev TogetherOrNot : String → String → Type 0
TogetherOrNot a b = ((a ≡ "") × (b ≡ "")) ⊎ ((a ≢ "") × (b ≢ ""))

together : (a b : String) → (differ (a == "") (b == "") ≡ false) ↔ TogetherOrNot a b
together a b = elim (String-cases a "") [
  | inl (e, t) ↦ elim (String-cases b "") [
    | inl (f, u) ↦ (λ h. inl (e, f), λ h. rw (t, u) refl)
    | inr (f, u) ↦ (λ h. absurd (ground arith), λ h. absurd (ground (arith, e, f)))
  ]
  | inr (e, t) ↦ elim (String-cases b "") [
    | inl (f, u) ↦ (λ h. absurd (ground arith), λ h. absurd (ground (arith, e, f)))
    | inr (f, u) ↦ (λ h. inr (e, f), λ h. rw (t, u) refl)
  ]
]

level :
    (l : String)
    → (not (is_level l) ≡ false) ↔ ((l ≡ "debug") ⊎ (l ≡ "info") ⊎ (l ≡ "warn") ⊎ (l ≡ "error"))
unfolding is_level
level l = (
  λ h. ground (arith, eq_iff l "debug", eq_iff l "info", eq_iff l "warn", eq_iff l "error"),
  λ h. ground (arith, eq_iff l "debug", eq_iff l "info", eq_iff l "warn", eq_iff l "error"),
)

-- A test that must not hold, and what follows it.
guard :
    (b : Bool) (e : ConfigError) (rest : Option ConfigError)
    → ((if b then some e else rest) ≡ none) ↔ ((b ≡ false) × (rest ≡ none))
guard b e rest = (λ h. ground arith, λ h. ground arith)

-- The tests of validate, none of which holds.
abbrev Passes : Config → Type 0
Passes c =
    ((c.token == "") ≡ false)
    × (ltb (len c.token) 32 ≡ false)
    × (differ (c.tls_cert == "") (c.tls_key == "") ≡ false)
    × (lt_int c.max_concurrent_streams (pos 1) ≡ false)
    × (lt_int (pos 64) c.max_concurrent_streams ≡ false)
    × (lt_int c.max_stream_bytes (pos 0) ≡ false)
    × (lt_int c.rate_limit_bps (pos 0) ≡ false)
    × (lt_int c.pair_rate_per_min (pos 1) ≡ false)
    × (not (lt_int (pos 0) c.stream_rendezvous_timeout) ≡ false)
    × (not (lt_int (pos 0) c.stream_idle_timeout) ≡ false)
    × (not (is_level c.log_level) ≡ false)

validate-Passes : (c : Config) → (validate c ≡ none) ↔ Passes c
unfolding validate
validate-Passes c = (
  λ h.
      let g1 = (guard _ _ _).0 h in
      let g2 = (guard _ _ _).0 g1.1 in
      let g3 = (guard _ _ _).0 g2.1 in
      let g4 = (guard _ _ _).0 g3.1 in
      let g5 = (guard _ _ _).0 g4.1 in
      let g6 = (guard _ _ _).0 g5.1 in
      let g7 = (guard _ _ _).0 g6.1 in
      let g8 = (guard _ _ _).0 g7.1 in
      let g9 = (guard _ _ _).0 g8.1 in
      let g10 = (guard _ _ _).0 g9.1 in
      let g11 = (guard _ _ _).0 g10.1 in
      (g1.0, g2.0, g3.0, g4.0, g5.0, g6.0, g7.0, g8.0, g9.0, g10.0, g11.0),
  λ (p0, p1, p2, p3, p4, p5, p6, p7, p8, p9, p10).
      rw (p0, p1, p2, p3, p4, p5, p6, p7, p8, p9, p10) refl,
)

-- A configuration is accepted exactly when it is safe: the token has at least 32 bytes, the two TLS
-- settings are both there or both not, the number of streams is from 1 to 64, the two byte limits
-- are not negative, the pairing rate and the two timeouts are positive, and the log level is one of
-- the four.
pub validate_iff : (c : Config) → (validate c ≡ none) ↔ IsSafe c
validate_iff c = (
  λ h.
      let p = (validate-Passes c).0 h in
      (
        ground (arith, p.1),
        (together c.tls_cert c.tls_key).0 p.2,
        (between c.max_concurrent_streams).0 (p.3, p.4),
        (at_least 0 c.max_stream_bytes).0 p.5,
        (at_least 0 c.rate_limit_bps).0 p.6,
        (at_least 1 c.pair_rate_per_min).0 p.7,
        (positive c.stream_rendezvous_timeout).0 p.8,
        (positive c.stream_idle_timeout).0 p.9,
        (level c.log_level).0 p.10,
      ),
  λ (s0, s1, s2, s3, s4, s5, s6, s7, s8).
      let b = (between c.max_concurrent_streams).1 s2 in
      (validate-Passes c).1 (
        not_empty s0,
        ground (arith, s0),
        (together c.tls_cert c.tls_key).1 s1,
        b.0,
        b.1,
        (at_least 0 c.max_stream_bytes).1 s3,
        (at_least 0 c.rate_limit_bps).1 s4,
        (at_least 1 c.pair_rate_per_min).1 s5,
        (positive c.stream_rendezvous_timeout).1 s6,
        (positive c.stream_idle_timeout).1 s7,
        (level c.log_level).1 s8,
      ),
)
  where
    not_empty : 32 ≤ len c.token → (c.token == "") ≡ false
    not_empty long = elim (String-cases c.token "") [
      | inl (e, t) ↦ absurd (ground (arith, rw e at long))
      | inr (n, t) ↦ t
    ]

-- If a configuration comes out, it is safe.
OkIsSafe : Result ConfigError Config → Type 0
OkIsSafe (ok c) = IsSafe c
OkIsSafe (err e) = Unit

checked-OkIsSafe : (c : Config) → OkIsSafe (checked c)
unfolding checked OkIsSafe
checked-OkIsSafe c = elim (Option-cases (validate c)) [
  | inl e ↦ rw (e, checked) ((validate_iff c).0 e)
  | inr (x, e) ↦ rw (e, checked) tt
]

bind-OkIsSafe :
    {A : Type 0} (m : Result ConfigError A) (f : A → Result ConfigError Config)
    → ((a : A) → OkIsSafe (f a))
    → OkIsSafe (m >>= f)
unfolding OkIsSafe
bind-OkIsSafe (ok a) f h = h a
bind-OkIsSafe (err e) f h = tt

load-OkIsSafe : (p : Parsers) (getenv : String → String) → OkIsSafe (load p getenv)
unfolding load
load-OkIsSafe p getenv =
    bind-OkIsSafe (number_or p.atoi getenv "RELAY_MAX_CONCURRENT_STREAMS" (pos 8)) _ (λ streams.
      bind-OkIsSafe (number_or p.parse_int getenv "RELAY_MAX_STREAM_BYTES" (pos 0)) _
        (λ stream_bytes.
          bind-OkIsSafe (number_or p.parse_int getenv "RELAY_RATE_LIMIT_BPS" (pos 0)) _ (λ bps.
            bind-OkIsSafe (number_or p.atoi getenv "RELAY_PAIR_RATE_PER_MIN" (pos 5)) _ (λ pairs.
              bind-OkIsSafe
                (number_or p.parse_duration getenv "RELAY_STREAM_RENDEZVOUS_TIMEOUT" (seconds 30)) _
                (λ rendezvous.
                  bind-OkIsSafe
                    (number_or p.parse_duration getenv "RELAY_STREAM_IDLE_TIMEOUT" (seconds 60)) _
                    (λ idle. checked-OkIsSafe _))))))

-- The server never starts with an unsafe configuration: whatever the environment holds, and whatever
-- the number parsers accept, a configuration that Load returns is safe.
pub load-IsSafe :
    (p : Parsers) (getenv : String → String) (c : Config) → load p getenv ≡ ok c → IsSafe c
unfolding OkIsSafe
load-IsSafe p getenv c h = subst OkIsSafe h (load-OkIsSafe p getenv)
