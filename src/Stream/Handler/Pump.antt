-- ===== src/Stream/Handler/Pump.antt =====
-- `pump` of handler.go: the loop that moves the bytes.
use icy_easy_send.Base.{
  ℕ, ◌+◌, Bool, true, false, ◌&&◌, Option, none, some, List, [], ◌∷◌, ◌++◌, if◌then◌else◌, ltb,
  length, take,
}
use icy_easy_send.Stream.Errors.{Error, eof, stream_too_large}

-- What the calls of one round of the loop return: extend(), src.Read with the bytes that it put into
-- the buffer, and dst.Write: the error of one that fails, and how many bytes of the chunk it had taken.
pub record Round : Type 0 where
  pub extend_err : Option Error
  pub chunk : List ℕ
  pub read_err : Option Error
  pub write_err : Option (ℕ × Error)

-- The loop goes on, or it has returned a total and an error, or none.
pub data Outcome : Type 0 where
  running : Outcome
  done : Option Error → Outcome

-- `written` is what dst.Write has taken, and `total` is the code's count of it.
pub record Progress : Type 0 where
  pub total : ℕ
  pub written : List ℕ
  pub outcome : Outcome

-- if readErr != nil: the end of the file is no error.
after_read : Option Error → Outcome
after_read none = running
after_read (some eof) = done none
after_read (some e) = done (some e)

abbrev pub is_empty : List ℕ → Bool
is_empty [] = true
is_empty (b ∷ bs) = false

-- A chunk that is not empty: the size test, the write, the count.
write_chunk : ℕ → ℕ → List ℕ → Round → Progress
unfolding after_read
write_chunk max total out r =
    if ltb 0 max && ltb max (total + length r.chunk)
    then record { total = total; written = out; outcome = done (some stream_too_large) }
    else elim r.write_err [
      | some (n, e) ↦ record {
        total = total;
        written = out ++ take n r.chunk;
        outcome = done (some e);
      }
      | none ↦ record {
        total = total + length r.chunk;
        written = out ++ r.chunk;
        outcome = after_read r.read_err;
      }
    ]

-- One round, from a total and what was written.
unfoldable pub pump_round : ℕ → ℕ → List ℕ → Round → Progress
unfolding write_chunk
pump_round max total out r = elim r.extend_err [
  | some e ↦ record { total = total; written = out; outcome = done (some e) }
  | none ↦
      if is_empty r.chunk
      then record { total = total; written = out; outcome = after_read r.read_err }
      else write_chunk max total out r
]

-- The loop over the rounds that are to come. It stops at the first round that ends it.
unfoldable pub pump_from : ℕ → ℕ → List ℕ → List Round → Progress
unfolding pump_round
pump_from max total out [] = record { total = total; written = out; outcome = running }
pump_from max total out (r ∷ rs) =
    let p = pump_round max total out r in
    elim p.outcome [ done e ↦ p | running ↦ pump_from max p.total p.written rs ]

unfoldable pub pump : ℕ → List Round → Progress
unfolding pump_from
pump max rounds = pump_from max 0 [] rounds
