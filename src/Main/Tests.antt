-- ===== src/Main/Tests.antt =====
-- The main program's theorems at a concrete relay.
use icy_easy_send.Base.{◌≡◌, refl, true, none, some, [], ◌∷◌, ok, lookup, insert}
use icy_easy_send.Base.Text.{trim_space}
use icy_easy_send.Config.{load, checked, validate, is_level, number_or, string_or}
use icy_easy_send.Limit.Bandwidth.{magnitude}
use icy_easy_send.Stream.Registry.{
  Stream, Registry, new_stream, allocate, claim_sender, new_registry,
}
use icy_easy_send.Stream.Registry.Invariant.{
  IsValid, new_registry-IsValid, allocate-IsValid, claim_sender-IsValid,
}
use icy_easy_send.Main.{
  Relay, start, ticked, sweeper, closed, interrupted, run, exit_status, log_level, warn,
}
use icy_easy_send.Main.Samples.{tokens, unlimited, environment, parsers, defaults}
use icy_easy_send.Main.Sweeping.{is_attached, sweeper_lem}
use icy_easy_send.Main.Starting.{starts_safely}

loads : load parsers environment ≡ ok defaults
unfolding load checked validate is_level number_or string_or trim_space
loads = refl

starts_safely_example : IsValid (start tokens unlimited defaults).world.streams
starts_safely_example = (starts_safely tokens unlimited parsers environment defaults loads).0

runs_to_the_end : exit_status (run parsers environment (interrupted none)) ≡ 0
unfolding run exit_status load checked validate is_level number_or string_or trim_space
runs_to_the_end = refl

fails_without_token : exit_status (run parsers (λ key. "") closed) ≡ 1
unfolding run exit_status load checked validate is_level number_or string_or trim_space
fails_without_token = refl

-- A stream from alice to bob at time 5, to which alice is attached.
abbrev empty : Registry
empty = (start tokens unlimited defaults).world.streams

abbrev stream : Stream
stream = new_stream "s1" "alice" "alice" "bob" 30_000_000_005

abbrev waiting : Registry
waiting = (claim_sender stream (allocate "s1" 5 "alice" "alice" "bob" empty).1).1

abbrev relay : Relay tokens unlimited
relay =
    let r = start tokens unlimited defaults in
    let w = r.world in record r { world = record w { streams = waiting } }

waiting-IsValid : IsValid waiting
unfolding lookup new_registry magnitude
waiting-IsValid =
    claim_sender-IsValid stream (allocate "s1" 5 "alice" "alice" "bob" empty).1
      (allocate-IsValid "s1" 5 "alice" "alice" "bob" empty refl (new_registry-IsValid _ _))

listed : lookup "s1" waiting.streams ≡ some stream
unfolding claim_sender allocate new_registry lookup insert magnitude
listed = refl

attached : is_attached (waiting.ends "s1") ≡ true
unfolding claim_sender allocate new_registry lookup insert magnitude
attached = refl

-- Its deadline has passed at both ticks.
sweeper_lem_example :
    let q =
      (sweeper tokens unlimited
        (ticked 40_000_000_000 ∷ ticked 70_000_000_000 ∷ [])
        relay).world.streams in
    (lookup "s1" q.streams ≡ some stream) × (q.ends "s1" ≡ waiting.ends "s1")
sweeper_lem_example =
    (sweeper_lem tokens unlimited relay "s1" stream waiting-IsValid).0
      (ticked 40_000_000_000 ∷ ticked 70_000_000_000 ∷ []) listed attached

warns : log_level "warn" ≡ warn
unfolding log_level
warns = refl
