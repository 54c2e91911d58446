-- ===== src/Stream/Transfer/Bytes.antt =====
-- The bytes of a transfer: what each side has of them, and what a round of a loop changes.
use mathlib.Core.List.{append-nil, append_assoc}
use icy_easy_send.Base.{
  ℕ, ◌≡◌, ◌≢◌, refl, ap, sym, ◌∙◌, subst, true, false, Option, none, some, List, [], ◌∷◌, ◌++◌,
  length, length-append, take, All, arith,
}
use icy_easy_send.Stream.Errors.{Error, eof}
use icy_easy_send.Stream.Handler.Pump.{Round, Progress, Outcome, running, done, pump_round}
use icy_easy_send.Stream.Handler.Copying.{source, IsPrefix, IsPrefix-append, IsPrefix-taken}
use icy_easy_send.Stream.Transfer.{gives, split_at, copy_buffer_size}

pub split_at-append : (n : ℕ) (xs : List ℕ) → (split_at n xs).0 ++ (split_at n xs).1 ≡ xs
unfolding split_at
split_at-append ℕ.zero xs = refl
split_at-append (ℕ.suc n) [] = refl
split_at-append (ℕ.suc n) (x ∷ xs) = ap (λ ys. x ∷ ys) (split_at-append n xs)

-- The bytes of the sending side: `all` is what the body of the upload gives, `passed` went through
-- the pipe, `written` is what completed writes have handed over.
abbrev pub Sends :
    ℕ → List ℕ → List ℕ → ℕ → List ℕ → List Round → Option (Round × List ℕ) → Outcome → Type 0
Sends max all passed total written upload (some (r, left)) running =
    (written ++ source (r ∷ upload) ≡ all)
    × (passed ++ left ≡ written ++ r.chunk)
    × (gives max total r ≡ true)
Sends max all passed total written upload (some (r, left)) (done e) = ⊥
Sends max all passed total written upload none running =
    (written ++ source upload ≡ all) × (passed ≡ written)
Sends max all passed total written upload none (done none) = (written ≡ all) × (passed ≡ written)
Sends max all passed total written upload none (done (some e)) = Unit

-- The bytes of the receiving side.
abbrev pub Receives : List ℕ → List ℕ → Option (List ℕ) → Outcome → Outcome → Type 0
Receives passed written (some c) running up = written ++ c ≡ passed
Receives passed written (some c) (done e) up = ⊥
Receives passed written none running up = written ≡ passed
Receives passed written none (done none) up = (written ≡ passed) × (up ≡ done none)
Receives passed written none (done (some e)) up = IsPrefix written passed

-- No renewal of a deadline reports the end of a file.
abbrev pub IsHonest : List Round → Type 0
IsHonest = All (λ r. r.extend_err ≢ some eof)

-- What a round without a write does to the sending side.
pub skip-Sends :
    (max total : ℕ) (all passed written : List ℕ) (r : Round) (rest : List Round)
    → gives max total r ≡ false
    → Sends max all passed total written (r ∷ rest) none running
    → let p = pump_round max total written r in
      Sends max all passed p.total p.written rest none p.outcome
unfolding pump_round
skip-Sends max total all passed written r rest k f = ground (arith, append-nil written)

pub skip-outcome :
    (max total : ℕ) (written : List ℕ) (r : Round)
    → gives max total r ≡ false
    → r.extend_err ≢ some eof
    → (pump_round max total written r).outcome ≢ done (some eof)
unfolding pump_round
skip-outcome max total written r k h e = ground arith

-- What a round does whose write has gone through.
pub give-Sends :
    (max total : ℕ) (all passed written : List ℕ) (r : Round) (rest : List Round)
    → Sends max all passed total written rest (some (r, [])) running
    → let p = pump_round max total written (record r { write_err = none }) in
      Sends max all passed p.total p.written rest none p.outcome
unfolding pump_round
give-Sends max total all passed written r rest f = ground (
  arith,
  append-nil passed,
  append-nil r.chunk,
  append_assoc written r.chunk (source rest),
  append_assoc written r.chunk [],
)

pub give-outcome :
    (max total : ℕ) (written : List ℕ) (r : Round)
    → gives max total r ≡ true
    → (pump_round max total written (record r { write_err = none })).outcome ≢ done (some eof)
unfolding pump_round
give-outcome max total written r k e = ground arith

-- A sender that has not failed has counted what it wrote.
abbrev pub IsCounted : Progress → Type 0
IsCounted p = elim p.outcome [
  | running ↦ p.total ≡ length p.written
  | done none ↦ p.total ≡ length p.written
  | done (some e) ↦ Unit
]

pub IsCounted-pump_round :
    (max : ℕ) (p : Progress) (r : Round)
    → p.outcome ≡ running
    → IsCounted p
    → IsCounted (pump_round max p.total p.written r)
unfolding pump_round
IsCounted-pump_round max p r o h = ground (arith, length-append p.written r.chunk)

-- A sender that goes on or ends does not change what the receiver has, which has not seen the end.
pub Receives-up :
    (passed written : List ℕ) (taken : Option (List ℕ)) (down up up' : Outcome)
    → up ≡ running
    → Receives passed written taken down up
    → Receives passed written taken down up'
Receives-up passed written taken down up up' o f = ground arith

pub IsPrefix-of : (xs ys all : List ℕ) → xs ++ ys ≡ all → IsPrefix xs all
IsPrefix-of xs ys all e = subst (IsPrefix xs) e (IsPrefix-append xs ys)

-- While a write runs, the loop runs.
pub giving-Sends :
    (max total : ℕ) (all passed written : List ℕ) (upload : List Round)
    (giving : Option (Round × List ℕ)) (up : Outcome) (r : Round) (left : List ℕ)
    → giving ≡ some (r, left)
    → Sends max all passed total written upload giving up
    → (up ≡ running) × Sends max all passed total written upload (some (r, left)) running
giving-Sends max total all passed written upload none up r left g f = absurd (ground arith)
giving-Sends max total all passed written upload (some (q, l)) (done e) r left g f = absurd f
giving-Sends max total all passed written upload (some (q, l)) running r left g f =
    (refl, subst (λ o. Sends max all passed total written upload o running) g f)

-- What a read leaves to be taken.
pub hand-Sends :
    (max : ℕ) (all passed : List ℕ) (total : ℕ) (written : List ℕ) (upload : List Round) (r : Round)
    (left : List ℕ)
    → Sends max all passed total written upload (some (r, left)) running
    → let (front, back) = split_at copy_buffer_size left in
      Sends max all (passed ++ front) total written upload (some (r, back)) running
      × IsPrefix (passed ++ front) all
hand-Sends max all passed total written upload r left f =
    let (front, back) = split_at copy_buffer_size left in
    let whole = split_at-append copy_buffer_size left in
    let tail : List ℕ = elim r.read_err [ none ↦ source upload | some e ↦ [] ] in
    let balance : (passed ++ front) ++ back ≡ written ++ r.chunk =
      append_assoc passed front back ∙ (ap (λ xs. passed ++ xs) whole ∙ f.1) in
    (
      (f.0, balance, f.2),
      IsPrefix-of (passed ++ front) (back ++ tail) all (
          sym (append_assoc (passed ++ front) back tail)
          ∙ (ap (λ xs. xs ++ tail) balance ∙ (append_assoc written r.chunk tail ∙ f.0))),
    )

pub fail-outcome :
    (max total : ℕ) (written : List ℕ) (r : Round) (n : ℕ) (e : Error)
    → gives max total r ≡ true
    → (pump_round max total written (record r { write_err = some (n, e) })).outcome ≡ done (some e)
unfolding pump_round
fail-outcome max total written r n e k = ground arith

pub taken-Receives :
    (passed written : List ℕ) (taken : Option (List ℕ)) (down up : Outcome) (c : List ℕ)
    → taken ≡ some c
    → Receives passed written taken down up
    → (down ≡ running) × (written ++ c ≡ passed)
taken-Receives passed written taken down up c k f = ground arith

IsPrefix-part :
    (written c passed : List ℕ) (n : ℕ)
    → written ++ c ≡ passed
    → IsPrefix (written ++ take n c) passed
IsPrefix-part written c passed n f =
    subst (IsPrefix (written ++ take n c)) (ap (λ xs. written ++ xs) (append-nil c) ∙ f)
      (IsPrefix-taken written c [] n)

pub deliver-Receives :
    (max : ℕ) (passed written : List ℕ) (total : ℕ) (c : List ℕ) (w : Option (ℕ × Error))
    (up : Outcome)
    → written ++ c ≡ passed
    → let r : Round = record { extend_err = none; chunk = c; read_err = none; write_err = w } in
      let p = pump_round max total written r in Receives passed p.written none p.outcome up
unfolding pump_round
deliver-Receives max passed written total c none up f =
    ground (arith, append-nil written, IsPrefix-of written c passed f)
deliver-Receives max passed written total c (some (n, e)) up f =
    ground (
      arith,
      append-nil written,
      IsPrefix-of written c passed f,
      IsPrefix-part written c passed n f,
    )

pub last-Receives :
    (max : ℕ) (passed written : List ℕ) (total : ℕ) (r : Round) (up : Outcome)
    → r.chunk ≡ []
    → written ≡ passed
    → let p = pump_round max total written r in
      (p.outcome ≡ running → ⊥)
      → (p.outcome ≡ done none → up ≡ done none)
      → Receives passed p.written none p.outcome up
unfolding pump_round
last-Receives max passed written total r up empty f ends' eof' =
    ground (arith, IsPrefix-of written [] passed (append-nil written ∙ f))

pub IsPrefix-trans : (xs ys zs : List ℕ) → IsPrefix xs ys → IsPrefix ys zs → IsPrefix xs zs
IsPrefix-trans [] ys zs p q = tt
IsPrefix-trans (x ∷ xs) [] zs p q = absurd p
IsPrefix-trans (x ∷ xs) (y ∷ ys) [] p q = absurd q
IsPrefix-trans (x ∷ xs) (y ∷ ys) (z ∷ zs) p q = (p.0 ∙ q.0, IsPrefix-trans xs ys zs p.1 q.1)

pub got_prefix :
    (passed written all : List ℕ) (taken : Option (List ℕ)) (down up : Outcome)
    → Receives passed written taken down up
    → IsPrefix passed all
    → IsPrefix written all
got_prefix passed written all (some c) (done e) up f p = absurd f
got_prefix passed written all (some c) running up f p =
    IsPrefix-trans written passed all (IsPrefix-of written c passed f) p
got_prefix passed written all none running up f p = rw f p
got_prefix passed written all none (done none) up f p = rw f.0 p
got_prefix passed written all none (done (some e)) up f p = IsPrefix-trans written passed all f p

pub got_all :
    (passed written : List ℕ) (taken : Option (List ℕ)) (down up : Outcome)
    → down ≡ done none
    → Receives passed written taken down up
    → (written ≡ passed) × (up ≡ done none)
got_all passed written taken down up o f = ground arith

pub gave_all :
    (max : ℕ) (all passed : List ℕ) (total : ℕ) (written : List ℕ) (upload : List Round)
    (giving : Option (Round × List ℕ)) (up : Outcome)
    → up ≡ done none
    → Sends max all passed total written upload giving up
    → (written ≡ all) × (passed ≡ written)
gave_all max all passed total written upload giving up o f = ground arith
