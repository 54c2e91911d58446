-- ===== src/Stream/Transfer/Sending.antt =====
-- What holds of both sides throughout a transfer, and that the moves of the sender keep it.
use icy_easy_send.Base.{ℕ, ◌≡◌, refl, true, false, Option, none, some, List, [], ◌∷◌, arith}
use icy_easy_send.Stream.Errors.{Error}
use icy_easy_send.Stream.Pipe.{write_outcome}
use icy_easy_send.Stream.Registry.{Stream}
use icy_easy_send.Stream.Handler.{finished, uploaded, downloaded}
use icy_easy_send.Stream.Handler.Pump.{Round, running, done, pump_round}
use icy_easy_send.Stream.Handler.Copying.{IsPrefix}
use icy_easy_send.Stream.Transfer.{Transfer, gives, pipe_of, ended_up}
use icy_easy_send.Stream.Transfer.Bytes.{
  Sends, Receives, IsHonest, skip-Sends, skip-outcome, give-Sends, give-outcome,
  IsCounted-pump_round, IsCounted, Receives-up, giving-Sends, fail-outcome,
}
use icy_easy_send.Stream.Transfer.Ends.{
  IsSealed, ended-IsSealed, pipe-finish_sender, told-finish_sender,
}

module _ (s : Stream) (max : ℕ) (all : List ℕ) where
  pub record IsCoherent (t : Transfer) : Type 0 where
    pub honest : IsHonest t.upload
    pub sends : Sends max all t.passed t.up.total t.up.written t.upload t.giving t.up.outcome
    pub receives : Receives t.passed t.down.written t.taken t.down.outcome t.up.outcome
    pub prefix : IsPrefix t.passed all
    pub sealed : IsSealed (pipe_of s max t) t.up.outcome
    pub counted : IsCounted t.up
    pub told_up :
        (n : ℕ)
        → t.answer_up ≡ finished (uploaded n)
        → (t.up.outcome ≡ done none) × (n ≡ t.up.total)
    pub told_down : t.answer_down ≡ finished downloaded → t.down.outcome ≡ done none

  pub begins-IsCoherent :
      (t : Transfer) (r : Round) (rest : List Round)
      → t.upload ≡ r ∷ rest
      → t.up.outcome ≡ running
      → t.giving ≡ none
      → gives max t.up.total r ≡ true
      → IsCoherent t
      → IsCoherent (record t { upload = rest; giving = some (r, r.chunk) })
  begins-IsCoherent t r rest u o g k v = record {
    honest = (rw u at v.honest).1;
    sends = rw o (let f = rw (u, o, g) at v.sends in (f.0, rw f.1 refl, k));
    receives = v.receives;
    prefix = v.prefix;
    sealed = v.sealed;
    counted = v.counted;
    told_up = v.told_up;
    told_down = v.told_down;
  }

  pub skips-IsCoherent :
      (t : Transfer) (r : Round) (rest : List Round)
      → t.upload ≡ r ∷ rest
      → t.up.outcome ≡ running
      → t.giving ≡ none
      → gives max t.up.total r ≡ false
      → IsCoherent t
      → IsCoherent (record t { upload = rest; up = pump_round max t.up.total t.up.written r })
  unfolding pump_round
  skips-IsCoherent t r rest u o g k v =
      let f = rw (u, o, g) at v.sends in
      let h = rw u at v.honest in
      record {
        honest = h.1;
        sends = rw g (skip-Sends max t.up.total all t.passed t.up.written r rest k f);
        receives =
            Receives-up t.passed t.down.written t.taken t.down.outcome t.up.outcome _ o v.receives;
        prefix = v.prefix;
        sealed = λ open'. (
          λ e. absurd (ground (arith, (v.sealed open').0 e)),
          λ e. skip-outcome max t.up.total t.up.written r k h.0,
        );
        counted = IsCounted-pump_round max t.up r o v.counted;
        told_up = λ n e. absurd (ground (arith, v.told_up n e));
        told_down = v.told_down;
      }

  pub has_written-IsCoherent :
      (t : Transfer) (r : Round)
      → t.giving ≡ some (r, [])
      → IsCoherent t
      → IsCoherent (record t {
        up = pump_round max t.up.total t.up.written (record r { write_err = none });
        giving = none;
      })
  has_written-IsCoherent t r g v =
      let (running', f) =
        giving-Sends max t.up.total all t.passed t.up.written t.upload t.giving t.up.outcome r [] g
          v.sends in
      record {
        honest = v.honest;
        sends = give-Sends max t.up.total all t.passed t.up.written r t.upload f;
        receives =
            Receives-up t.passed t.down.written t.taken t.down.outcome t.up.outcome _ running'
              v.receives;
        prefix = v.prefix;
        sealed = λ h. (
          λ e. absurd (ground (arith, (v.sealed h).0 e)),
          λ e. give-outcome max t.up.total t.up.written r f.2,
        );
        counted = IsCounted-pump_round max t.up (record r { write_err = none }) running' v.counted;
        told_up = λ n e. absurd (ground (arith, v.told_up n e));
        told_down = v.told_down;
      }

  pub fails_to_write-IsCoherent :
      (t : Transfer) (r : Round) (left : List ℕ) (n : ℕ) (e : Error)
      → t.giving ≡ some (r, left)
      → write_outcome (pipe_of s max t).write_err (pipe_of s max t).read_err ≡ some e
      → IsCoherent t
      → IsCoherent (record t {
        up = pump_round max t.up.total t.up.written (record r { write_err = some (n, e) });
        giving = none;
      })
  unfolding write_outcome
  fails_to_write-IsCoherent t r left n e g w v =
      let (running', f) =
        giving-Sends max t.up.total all t.passed t.up.written t.upload t.giving t.up.outcome r left
          g v.sends in
      let out = fail-outcome max t.up.total t.up.written r n e f.2 in
      record {
        honest = v.honest;
        sends = rw out tt;
        receives =
            Receives-up t.passed t.down.written t.taken t.down.outcome t.up.outcome _ running'
              v.receives;
        prefix = v.prefix;
        sealed = λ h. (λ q. absurd (ground (arith, (v.sealed h).0 q)), λ q. absurd (ground arith));
        counted =
            IsCounted-pump_round max t.up (record r { write_err = some (n, e) }) running' v.counted;
        told_up = λ n q. absurd (ground (arith, v.told_up n q));
        told_down = v.told_down;
      }

  pub answers_up-IsCoherent :
      (t : Transfer) (e : Option Error)
      → t.up.outcome ≡ done e
      → IsCoherent t
      → IsCoherent (ended_up s max e t)
  answers_up-IsCoherent t e o v =
      let q = pipe-finish_sender s max t.up.total e t.registry in
      record {
        honest = v.honest;
        sends = v.sends;
        receives = v.receives;
        prefix = v.prefix;
        sealed = ended-IsSealed s max (pipe_of s max t) _ e t.up.outcome o q.0 q.1 v.sealed;
        counted = v.counted;
        told_up = told-finish_sender s max t e o;
        told_down = v.told_down;
      }
