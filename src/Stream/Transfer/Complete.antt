-- ===== src/Stream/Transfer/Complete.antt =====
-- A transfer that ends well is complete.
use icy_easy_send.Base.{ℕ, ◌≡◌, refl, ap, ◌∙◌, none, some, List, [], ◌∷◌, length, arith}
use icy_easy_send.Stream.Registry.{Stream, Registry}
use icy_easy_send.Stream.Registry.Closing.{IsOpen}
use icy_easy_send.Stream.Handler.{finished, uploaded, downloaded}
use icy_easy_send.Stream.Handler.Pump.{Round, Progress, done, pump_round}
use icy_easy_send.Stream.Handler.Copying.{source, IsPrefix}
use icy_easy_send.Stream.Transfer.{
  Transfer, Move, begins, skips, hands_over, has_written, fails_to_write, delivers, gives_up,
  sees_end, answers_up, answers_down, Step, moves, others, Reach, here, next, Ended, begin_transfer,
  pipe_of,
}
use icy_easy_send.Stream.Transfer.Bytes.{IsHonest, IsCounted, got_prefix, got_all, gave_all}
use icy_easy_send.Stream.Transfer.Ends.{Ended-IsSealed}
use icy_easy_send.Stream.Transfer.Sending.{
  IsCoherent, begins-IsCoherent, skips-IsCoherent, has_written-IsCoherent,
  fails_to_write-IsCoherent, answers_up-IsCoherent,
}
use icy_easy_send.Stream.Transfer.Receiving.{
  hands_over-IsCoherent, delivers-IsCoherent, last_round-IsCoherent, sees_end-IsCoherent,
  answers_down-IsCoherent,
}

module _ (s : Stream) (max : ℕ) (all : List ℕ) where
  others-IsCoherent :
      (t : Transfer) (r : Registry)
      → Ended (pipe_of s max t) (r.ends s.id).pipe
      → IsCoherent s max all t
      → IsCoherent s max all (record t { registry = r })
  others-IsCoherent t r e v = record {
    honest = v.honest;
    sends = v.sends;
    receives = v.receives;
    prefix = v.prefix;
    sealed = Ended-IsSealed s max (pipe_of s max t) (r.ends s.id).pipe t.up.outcome e v.sealed;
    counted = v.counted;
    told_up = v.told_up;
    told_down = v.told_down;
  }

  Move-IsCoherent :
      {t u : Transfer} → Move s max t u → IsCoherent s max all t → IsCoherent s max all u
  unfolding pump_round
  Move-IsCoherent {t} (begins r rest u o g k) v = begins-IsCoherent s max all t r rest u o g k v
  Move-IsCoherent {t} (skips r rest u o g k) v = skips-IsCoherent s max all t r rest u o g k v
  Move-IsCoherent {t} (hands_over r b left g w d o k) v =
      hands_over-IsCoherent s max all t r (b ∷ left) g o k v
  Move-IsCoherent {t} (has_written r g) v = has_written-IsCoherent s max all t r g v
  Move-IsCoherent {t} (fails_to_write r b left e g w) v =
      fails_to_write-IsCoherent s max all t r (b ∷ left) _ e g w v
  Move-IsCoherent {t} (delivers c w k) v = delivers-IsCoherent s max all t c w k v
  Move-IsCoherent {t} (gives_up e o k) v =
      last_round-IsCoherent s max all t
        (record { extend_err = some e; chunk = []; read_err = none; write_err = none }) refl o k
        (λ h. ground arith) (λ h. absurd (ground arith)) v
  Move-IsCoherent {t} (sees_end e o k x) v = sees_end-IsCoherent s max all t e o k x v
  Move-IsCoherent {t} (answers_up e o f) v = answers_up-IsCoherent s max all t e o v
  Move-IsCoherent {t} (answers_down e o f) v = answers_down-IsCoherent s max all t e o v

  Step-IsCoherent :
      {t u : Transfer} → Step s max t u → IsCoherent s max all t → IsCoherent s max all u
  Step-IsCoherent (moves m) v = Move-IsCoherent m v
  Step-IsCoherent {t} (others r e) v = others-IsCoherent t r e v

  Reach-IsCoherent :
      {t u : Transfer} → IsCoherent s max all t → Reach s max t u → IsCoherent s max all u
  Reach-IsCoherent v here = v
  Reach-IsCoherent v (next r st) = Step-IsCoherent st (Reach-IsCoherent v r)

begin_transfer-IsCoherent :
    (s : Stream) (max : ℕ) (r : Registry) (upload : List Round)
    → IsHonest upload
    → IsOpen (r.ends s.id)
    → IsCoherent s max (source upload) (begin_transfer s max r upload)
begin_transfer-IsCoherent s max r upload h o = record {
  honest = h;
  sends = (refl, refl);
  receives = refl;
  prefix = tt;
  sealed = λ x. (λ y. absurd (ground (arith, o.1)), λ y z. absurd (ground arith));
  counted = refl;
  told_up = λ n e. absurd (ground arith);
  told_down = λ e. absurd (ground arith);
}

finished_count : (p : Progress) → p.outcome ≡ done none → IsCounted p → p.total ≡ length p.written
finished_count p o h = ground arith

-- A truncated transfer never looks complete. From two attached handlers on an open pipe, whatever
-- the interleaving, and whether or not others close the stream meanwhile, if no renewal of a deadline reports
-- the end of a file: what the receiving client has got is at every moment a prefix of what the body
-- of the upload gives. If its answer ends without an error, it has got all of it, and the sender's
-- loop has come to the end of the body without an error. If the sending client is told that `n`
-- bytes were uploaded, `n` is the length of the body, and all of it went through the pipe.
pub transfer_is_complete :
    (s : Stream) (max : ℕ) (r : Registry) (upload : List Round) (t : Transfer)
    → IsHonest upload
    → IsOpen (r.ends s.id)
    → Reach s max (begin_transfer s max r upload) t
    → IsPrefix t.down.written (source upload)
      × (t.answer_down ≡ finished downloaded
          → (t.down.written ≡ source upload) × (t.up.outcome ≡ done none))
      × ((n : ℕ)
          → t.answer_up ≡ finished (uploaded n)
          → (n ≡ length (source upload)) × (t.passed ≡ source upload))
transfer_is_complete s max r upload t h o reached =
    let v =
      Reach-IsCoherent s max (source upload) (begin_transfer-IsCoherent s max r upload h o)
        reached in
    let all = source upload in
    (
      got_prefix t.passed t.down.written all t.taken t.down.outcome t.up.outcome v.receives
          v.prefix,
      λ e.
          let (got, ended) =
            got_all t.passed t.down.written t.taken t.down.outcome t.up.outcome (v.told_down e)
              v.receives in
          let (gave, through) =
            gave_all max all t.passed t.up.total t.up.written t.upload t.giving t.up.outcome ended
              v.sends in
          (got ∙ (through ∙ gave), ended),
      λ n e.
          let (ended, count) = v.told_up n e in
          let (gave, through) =
            gave_all max all t.passed t.up.total t.up.written t.upload t.giving t.up.outcome ended
              v.sends in
          (count ∙ (finished_count t.up ended v.counted ∙ ap length gave), through ∙ gave),
    )
