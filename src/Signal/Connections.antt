-- ===== src/Signal/Connections.antt =====
-- relay/internal/signal/server.go: the connections of all devices, each from ServeHTTP's handshake to
-- its teardown, in every interleaving.
--
-- A connection is known by the address of its session, `ref`. Its goroutine is at a `Point`; what it
-- does there runs as one step. The data plane, the sweeper, the write and ping loops and the limiter
-- do not touch the hub and run in between (`others`).
pub mod Ghosts
pub mod Histories
mod Tests
use icy_easy_send.Base.{
  ℕ, ◌≡◌, String, Bool, true, false, Option, none, some, List, [], ◌∷◌, eqb, if◌then◌else◌, Result,
  ok, err,
}
use icy_easy_send.Base.Hex.{hex_encode}
use icy_easy_send.Protocol as Wire
use icy_easy_send.Auth.{Crypto}
use icy_easy_send.Limit.{Rate}
use icy_easy_send.Stream.Errors.{Error}
use icy_easy_send.Signal.Hub.{Session, new_hub}
use icy_easy_send.Signal.World.{World}
use icy_easy_send.Signal.Server.{Codec, dispatch, teardown}
use icy_easy_send.Signal.Handshake.{Refusal, check_answer, enter, welcomed, reject_handshake}

-- Where the goroutine of a connection is: not in the handshake's last part yet; registered, with its
-- welcome still to write; in readLoop; or behind its end.
pub data Point : Type 0 where
  outside gone : Point
  entered reading : Session → Point

pub record System (L : Type 0) : Type 0 where
  pub world : World L
  pub points : ℕ → Point

abbrev pub at_point : ℕ → Point → (ℕ → Point) → ℕ → Point
at_point ref p points r = if eqb ref r then p else points r

module _ (rate : Rate) (codec : Codec) (crypto : Crypto) where
  -- readLoop over the frames that it reads, each with its time and random bytes.
  unfoldable pub read_loop :
      Session → List (ℕ × Result Error (List ℕ) × String) → World rate.Limiter → World rate.Limiter
  unfolding dispatch
  read_loop s [] w = w
  read_loop s ((now, random, frame) ∷ rest) w =
      read_loop s rest (dispatch rate codec now random s frame w)

  -- A step of one of the connections. `drawn` is what rand.Read would give for the id of a stream.
  pub data Move (drawn : Result Error (List ℕ)) (x : System rate.Limiter)
      : System rate.Limiter → Type 0 where
    -- The answer to the challenge passes, and the session is registered.
    answers :
        (decode : String → Option Wire.Auth) (nonce : List ℕ) (read : Option String)
        (random : Option (List ℕ)) (ref : ℕ) (s : Session)
        → x.points ref ≡ outside
        → check_answer crypto decode nonce read random ref ≡ ok s
        → Move drawn x
            (record { world = enter s x.world; points = at_point ref (entered s) x.points })
    -- The handshake is refused.
    is_refused :
        (ref : ℕ) (e : Refusal)
        → x.points ref ≡ outside
        → Move drawn x
            (record { world = (reject_handshake e x.world).1; points = at_point ref gone x.points })
    -- The welcome goes out, or does not.
    is_welcome :
        (s : Session)
        → x.points s.ref ≡ entered s
        → Move drawn x (record {
          world = (welcomed true s x.world).1;
          points = at_point s.ref (reading s) x.points;
        })
    is_lost :
        (s : Session)
        → x.points s.ref ≡ entered s
        → Move drawn x
            (record { world = (welcomed false s x.world).1; points = at_point s.ref gone x.points })
    -- A message is read, or the read fails and the connection is torn down.
    reads :
        (now : ℕ) (s : Session) (frame : String)
        → x.points s.ref ≡ reading s
        → Move drawn x (record x { world = dispatch rate codec now drawn s frame x.world })
    ends :
        (now : ℕ) (s : Session)
        → x.points s.ref ≡ reading s
        → Move drawn x (record {
          world = teardown rate codec now s x.world;
          points = at_point s.ref gone x.points;
        })

  pub data Step (x : System rate.Limiter) : System rate.Limiter → Type 0 where
    moves : {y : System rate.Limiter} (drawn : Result Error (List ℕ)) → Move drawn x y → Step x y
    others : (w : World rate.Limiter) → w.hub ≡ x.world.hub → Step x (record x { world = w })

  pub data Reach : System rate.Limiter → Type 0 where
    start :
        (w : World rate.Limiter)
        → w.hub ≡ new_hub
        → Reach (record { world = w; points = λ r. outside })
    next : {x y : System rate.Limiter} → Reach x → Step x y → Reach y
