-- ===== src/Stream/Transfer/Receiving.antt =====
-- The moves of the receiver keep what holds of both sides.
use icy_easy_send.Base.{ℕ, ◌≡◌, refl, ap, Option, none, some, List, [], ◌++◌, arith}
use icy_easy_send.Stream.Errors.{Error}
use icy_easy_send.Stream.Pipe.{read_outcome}
use icy_easy_send.Stream.Registry.{Stream}
use icy_easy_send.Stream.Handler.Pump.{Round, running, done, pump_round}
use icy_easy_send.Stream.Transfer.{
  Transfer, split_at, copy_buffer_size, pipe_of, handed, ended_down, reads_chunk,
}
use icy_easy_send.Stream.Transfer.Bytes.{
  giving-Sends, hand-Sends, taken-Receives, deliver-Receives, last-Receives,
}
use icy_easy_send.Stream.Transfer.Ends.{seen_end, pipe-finish_receiver, told-finish_receiver}
use icy_easy_send.Stream.Transfer.Sending.{IsCoherent}

module _ (s : Stream) (max : ℕ) (all : List ℕ) where
  pub hands_over-IsCoherent :
      (t : Transfer) (r : Round) (left : List ℕ)
      → t.giving ≡ some (r, left)
      → t.down.outcome ≡ running
      → t.taken ≡ none
      → IsCoherent s max all t
      → IsCoherent s max all (handed s max r left t)
  hands_over-IsCoherent t r left g o k v =
      let (running', f) =
        giving-Sends max t.up.total all t.passed t.up.written t.upload t.giving t.up.outcome r left
          g v.sends in
      let (sends', prefix') =
        hand-Sends max all t.passed t.up.total t.up.written t.upload r left f in
      record {
        honest = v.honest;
        sends = rw running' sends';
        receives =
            rw o (ap (λ xs. xs ++ (split_at copy_buffer_size left).0) (rw (o, k) at v.receives));
        prefix = prefix';
        sealed = v.sealed;
        counted = v.counted;
        told_up = v.told_up;
        told_down = v.told_down;
      }

  pub delivers-IsCoherent :
      (t : Transfer) (c : List ℕ) (w : Option (ℕ × Error))
      → t.taken ≡ some c
      → IsCoherent s max all t
      → IsCoherent s max all (record t {
        down = pump_round max t.down.total t.down.written (reads_chunk s max c w);
        taken = none;
      })
  delivers-IsCoherent t c w k v =
      let (running', f) =
        taken-Receives t.passed t.down.written t.taken t.down.outcome t.up.outcome c k v.receives in
      record {
        honest = v.honest;
        sends = v.sends;
        receives = deliver-Receives max t.passed t.down.written t.down.total c w t.up.outcome f;
        prefix = v.prefix;
        sealed = v.sealed;
        counted = v.counted;
        told_up = v.told_up;
        told_down = λ q. absurd (ground (arith, v.told_down q));
      }

  -- A round of the receiver with no bytes, which ends its loop.
  pub last_round-IsCoherent :
      (t : Transfer) (r : Round)
      → r.chunk ≡ []
      → t.down.outcome ≡ running
      → t.taken ≡ none
      → ((pump_round max t.down.total t.down.written r).outcome ≡ running → ⊥)
      → ((pump_round max t.down.total t.down.written r).outcome ≡ done none
          → t.up.outcome ≡ done none)
      → IsCoherent s max all t
      → IsCoherent s max all (record t { down = pump_round max t.down.total t.down.written r })
  last_round-IsCoherent t r empty o k ends' eof' v = record {
    honest = v.honest;
    sends = v.sends;
    receives = rw k (
        last-Receives max t.passed t.down.written t.down.total r t.up.outcome empty
          (rw (o, k) at v.receives) ends' eof');
    prefix = v.prefix;
    sealed = v.sealed;
    counted = v.counted;
    told_up = v.told_up;
    told_down = λ q. absurd (ground (arith, v.told_down q));
  }

  pub sees_end-IsCoherent :
      (t : Transfer) (e : Error)
      → t.down.outcome ≡ running
      → t.taken ≡ none
      → read_outcome (pipe_of s max t).read_err (pipe_of s max t).write_err ≡ some e
      → IsCoherent s max all t
      → IsCoherent s max all (record t {
        down =
            pump_round max t.down.total t.down.written
              (record { extend_err = none; chunk = []; read_err = some e; write_err = none });
      })
  unfolding pump_round read_outcome
  sees_end-IsCoherent t e o k x v =
      last_round-IsCoherent t
        (record { extend_err = none; chunk = []; read_err = some e; write_err = none }) refl o k
        (λ h. ground arith)
        (seen_end max t.down.total t.down.written (pipe_of s max t) t.up.outcome e x v.sealed) v

  pub answers_down-IsCoherent :
      (t : Transfer) (e : Option Error)
      → t.down.outcome ≡ done e
      → IsCoherent s max all t
      → IsCoherent s max all (ended_down s max e t)
  answers_down-IsCoherent t e o v = record {
    honest = v.honest;
    sends = v.sends;
    receives = v.receives;
    prefix = v.prefix;
    sealed = λ h. absurd (pipe-finish_receiver s max e t.registry h);
    counted = v.counted;
    told_up = v.told_up;
    told_down = told-finish_receiver s max e t.registry t.down.outcome o;
  }
