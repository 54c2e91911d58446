-- ===== src/Stream/Handler/Copying.antt =====
-- The loop copies: what it has written, when it succeeds, and the size limit.
use mathlib.Core.List.{append-nil, append_assoc}
use native.Mathlib.Nat.{zero-add}
use icy_easy_send.Base.{
  ℕ, ◌+◌, ◌≤◌, ◌≡◌, ◌↔◌, ◌⊎◌, inl, inr, refl, ap, take, length-take, subst, Bool, true, false, not,
  ◌&&◌, ◌||◌, Option, none, some, List, [], ◌∷◌, ◌++◌, ltb, length, length-append, arith,
}
use icy_easy_send.Stream.Errors.{Error, eof}
use icy_easy_send.Stream.Handler.Pump.{
  Round, Progress, Outcome, running, pump_round, done, pump_from, pump, is_empty,
}

-- The bytes that the source gives, up to the round in which it reports an error or its end.
abbrev pub source : List Round → List ℕ
source [] = []
source (r ∷ rs) = r.chunk ++ elim r.read_err [ none ↦ source rs | some e ↦ [] ]

abbrev pub IsPrefix : List ℕ → List ℕ → Type 0
IsPrefix [] ys = Unit
IsPrefix (x ∷ xs) [] = ⊥
IsPrefix (x ∷ xs) (y ∷ ys) = (x ≡ y) × IsPrefix xs ys

pub IsPrefix-append : (xs ys : List ℕ) → IsPrefix xs (xs ++ ys)
IsPrefix-append [] ys = tt
IsPrefix-append (x ∷ xs) ys = (refl, IsPrefix-append xs ys)

abbrev is_none : {A : Type 0} → Option A → Bool
is_none none = true
is_none (some e) = false

-- A round in which nothing fails but, maybe, the read.
abbrev fine : Round → Bool
fine r = is_none r.extend_err && (is_empty r.chunk || is_none r.write_err)

-- The limit holds after this many bytes; zero stands for no limit.
abbrev fits : ℕ → ℕ → Bool
fits max n = not (ltb 0 max && ltb max n)

-- The rounds end with the end of the file, and nothing fails before.
abbrev pub is_clean : List Round → Bool
is_clean [] = false
is_clean (r ∷ rs) =
    fine r && elim r.read_err [ none ↦ is_clean rs | some eof ↦ true | some e ↦ false ]

-- No limit, or one that the number does not pass.
abbrev pub Fits : ℕ → ℕ → Type 0
Fits max n = (max ≡ 0) ⊎ (n ≤ max)

-- A part of the next bytes leaves a prefix.
pub IsPrefix-taken : (out xs ys : List ℕ) (n : ℕ) → IsPrefix (out ++ take n xs) (out ++ (xs ++ ys))
IsPrefix-taken [] xs ys ℕ.zero = tt
IsPrefix-taken [] [] ys (ℕ.suc n) = tt
IsPrefix-taken [] (x ∷ xs) ys (ℕ.suc n) = (refl, IsPrefix-taken [] xs ys n)
IsPrefix-taken (o ∷ out) xs ys n = (refl, IsPrefix-taken out xs ys n)

-- How many bytes a Write that fails has taken.
abbrev part : Option (ℕ × Error) → ℕ
part none = 0
part (some x) = x.0

-- The loop has ended with the error of a Write that failed, and what that Write had taken of its chunk
-- is all that the total leaves out.
abbrev pub IsCutShort : Progress → List Round → Type 0
IsCutShort p [] = ⊥
IsCutShort p (r ∷ rs) =
    elim r.write_err [
      | none ↦ ⊥
      | some (n, e) ↦
          (p.outcome ≡ done (some e)) × (length p.written ≡ p.total + length (take n r.chunk))
    ]
    ⊎ IsCutShort p rs

-- The total counts what is written, but for a Write that failed.
abbrev pub Counts : Progress → List Round → Type 0
Counts p rs = (p.total ≡ length p.written) ⊎ IsCutShort p rs

round-Counts :
    (max total : ℕ) (out : List ℕ) (r : Round)
    → total ≡ length out
    → Counts (pump_round max total out r) (r ∷ [])
unfolding pump_round
round-Counts max total out r h =
    ground (arith, length-append out r.chunk, length-append out (take (part r.write_err) r.chunk))

counted-round :
    (max total : ℕ) (out : List ℕ) (r : Round)
    → total ≡ length out
    → (pump_round max total out r).outcome ≡ running
    → (pump_round max total out r).total ≡ length (pump_round max total out r).written
unfolding pump_round
counted-round max total out r h o = ground (arith, length-append out r.chunk)

-- A round, and the loop behind it.
then-Counts :
    (p q : Progress) (o : Outcome) (r : Round) (rs : List Round)
    → Counts p (r ∷ [])
    → (o ≡ running → Counts q rs)
    → Counts (elim o [ done e ↦ p | running ↦ q ]) (r ∷ rs)
then-Counts p q running r rs h f = elim (f refl) [ inl same ↦ inl same | inr cut ↦ inr (inr cut) ]
then-Counts p q (done e) r rs h f = elim h [
  | inl same ↦ inl same
  | inr cut ↦ elim cut [ inl here ↦ inr (inl here) | inr none_left ↦ absurd none_left ]
]

Counts-pump_from :
    (max total : ℕ) (out : List ℕ) (rs : List Round)
    → total ≡ length out
    → Counts (pump_from max total out rs) rs
unfolding pump_from
Counts-pump_from max total out [] h = inl h
Counts-pump_from max total out (r ∷ rs) h =
    let p = pump_round max total out r in
    then-Counts p (pump_from max p.total p.written rs) p.outcome r rs
      (round-Counts max total out r h)
      (λ o. Counts-pump_from max p.total p.written rs (counted-round max total out r h o))

Fits-pump_from :
    (max total : ℕ) (out : List ℕ) (rs : List Round)
    → total ≡ length out
    → Fits max total
    → Fits max (length (pump_from max total out rs).written)
unfolding pump_from
Fits-pump_from max total out [] e h = ground arith
Fits-pump_from max total out (r ∷ rs) e h = ground (
  arith,
  Fits-pump_from max total out rs,
  Fits-pump_from max (total + length r.chunk) (out ++ r.chunk) rs,
  length-append out r.chunk,
  length-append out (take (part r.write_err) r.chunk),
  length-take (part r.write_err) r.chunk,
)

prefix-pump_from :
    (max total : ℕ) (out : List ℕ) (rs : List Round)
    → IsPrefix (pump_from max total out rs).written (out ++ source rs)
unfolding pump_from
prefix-pump_from max total out [] = IsPrefix-append out []
prefix-pump_from max total out (r ∷ rs) = ground (
  arith,
  prefix-pump_from max total out rs,
  prefix-pump_from max (total + length r.chunk) (out ++ r.chunk) rs,
  IsPrefix-append out (source (r ∷ rs)),
  append_assoc out r.chunk (source rs),
  append_assoc out r.chunk [],
  append-nil out,
  IsPrefix-append (out ++ r.chunk) [],
  IsPrefix-taken out r.chunk (elim r.read_err [ none ↦ source rs | some e ↦ [] ])
      (part r.write_err),
)

complete-pump_from :
    (max total : ℕ) (out : List ℕ) (rs : List Round)
    → (pump_from max total out rs).outcome ≡ done none
    → (is_clean rs ≡ true) × ((pump_from max total out rs).written ≡ out ++ source rs)
unfolding pump_from
complete-pump_from max total out [] h = absurd (ground arith)
complete-pump_from max total out (r ∷ rs) h = ground (
  arith,
  complete-pump_from max total out rs,
  complete-pump_from max (total + length r.chunk) (out ++ r.chunk) rs,
  append_assoc out r.chunk (source rs),
  append-nil r.chunk,
  append-nil out,
)

succeeds-pump_from :
    (max total : ℕ) (out : List ℕ) (rs : List Round)
    → is_clean rs ≡ true
    → Fits max (total + length (source rs))
    → (pump_from max total out rs).outcome ≡ done none
unfolding pump_from
succeeds-pump_from max total out [] c f = absurd (ground arith)
succeeds-pump_from max total out (r ∷ rs) c f = ground (
  arith,
  succeeds-pump_from max total out rs,
  succeeds-pump_from max (total + length r.chunk) (out ++ r.chunk) rs,
  length-append r.chunk (source rs),
  length-append r.chunk [],
)

-- At every moment, and however the loop ends: what it has written is a prefix of what the source
-- gave, and with a limit never more bytes than that. Its total is the number of bytes written,
-- unless the loop ended with the error of a Write that failed; then it leaves out exactly the bytes of
-- the chunk that this Write had taken.
pub pump_copies :
    (max : ℕ) (rs : List Round)
    → IsPrefix (pump max rs).written (source rs)
      × Fits max (length (pump max rs).written)
      × Counts (pump max rs) rs
unfolding pump
pump_copies max rs = (
  prefix-pump_from max 0 [] rs,
  Fits-pump_from max 0 [] rs refl (inr (omega arith)),
  Counts-pump_from max 0 [] rs refl,
)

-- The loop returns with no error exactly when the source comes to the end of the file, no deadline
-- and no write fails before, and the bytes up to there are within the limit; it has then written
-- them all.
pub pump_succeeds_iff :
    (max : ℕ) (rs : List Round)
    → ((pump max rs).outcome ≡ done none)
      ↔ ((is_clean rs ≡ true) × Fits max (length (source rs)) × ((pump max rs).written ≡ source rs))
unfolding pump
pump_succeeds_iff max rs = (
  λ h.
      let c = complete-pump_from max 0 [] rs h in
      let f = Fits-pump_from max 0 [] rs refl (inr (omega arith)) in
      (c.0, subst (Fits max) (ap length c.1) f, c.1),
  λ h. succeeds-pump_from max 0 [] rs h.0 (rw zero-add h.1),
)
