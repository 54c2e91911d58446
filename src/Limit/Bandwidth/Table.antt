-- ===== src/Limit/Bandwidth/Table.antt =====
-- The table of a bandwidth pool: which limiter each device has, and how operations change it.
use icy_easy_send.Base.{
  ℕ, ◌+◌, ◌≡◌, ◌<◌, String, Bool, true, none, some, Map, [], lookup, insert, lookup-insert,
  lookup-retain, HasUniqueKeys, insert-HasUniqueKeys, retain, retain-HasUniqueKeys, arith, ◌==◌,
  eq_iff, Bool-cases, inl, inr,
}
use icy_easy_send.Limit.Bandwidth.{BwEntry}

-- Whose limiter is whose: references are to limiters that were made, and no two devices share one.
pub record IsTable (m : Map BwEntry) (made : ℕ) : Type 0 where
  pub unique : HasUniqueKeys m
  pub bounded : (k : String) (e : BwEntry) → lookup k m ≡ some e → e.limiter < made
  pub separate :
      (j k : String) (e f : BwEntry)
      → lookup j m ≡ some e
      → lookup k m ≡ some f
      → e.limiter ≡ f.limiter
      → j ≡ k

pub empty-IsTable : IsTable [] 0
unfolding lookup
empty-IsTable = record {
  unique = tt;
  bounded = λ k e at. absurd (ground arith);
  separate = λ j k e f at. absurd (ground arith);
}

-- A new entry has a limiter of its own.
insert-IsTable :
    (d : String) (now : ℕ) (m : Map BwEntry) (made : ℕ)
    → IsTable m made
    → IsTable (insert d (record { limiter = made; last_seen = now }) m) (made + 1)
insert-IsTable d now m made h =
    let e : BwEntry = record { limiter = made; last_seen = now } in
    record {
      unique = insert-HasUniqueKeys d e m h.unique;
      bounded = λ k f at. ground (arith, lookup-insert d k e m, h.bounded k f);
      separate = λ j k f g at at' same. ground (
        arith,
        eq_iff d j,
        eq_iff d k,
        lookup-insert d j e m,
        lookup-insert d k e m,
        h.bounded j f,
        h.bounded k g,
        h.separate j k f g,
      );
    }

-- An entry that is seen again keeps its limiter.
refresh-IsTable :
    (d : String) (now : ℕ) (x : BwEntry) (m : Map BwEntry) (made : ℕ)
    → lookup d m ≡ some x
    → IsTable m made
    → IsTable (insert d (record { limiter = x.limiter; last_seen = now }) m) made
refresh-IsTable d now x m made found h =
    let e : BwEntry = record { limiter = x.limiter; last_seen = now } in
    record {
      unique = insert-HasUniqueKeys d e m h.unique;
      bounded = λ k f at. ground (arith, lookup-insert d k e m, h.bounded k f, h.bounded d x found);
      separate = λ j k f g at at' same. ground (
        arith,
        eq_iff d j,
        eq_iff d k,
        lookup-insert d j e m,
        lookup-insert d k e m,
        h.separate j k f g,
        h.separate j d f x,
        h.separate d k x g found,
      );
    }

retain-IsTable :
    (keep : BwEntry → Bool) (m : Map BwEntry) (made : ℕ)
    → IsTable m made
    → IsTable (retain keep m) made
retain-IsTable keep m made h = record {
  unique = retain-HasUniqueKeys keep m h.unique;
  bounded = λ k f at. ground (arith, lookup-retain keep k m h.unique, h.bounded k f);
  separate = λ j k f g at at' same.
      ground (
        arith,
        lookup-retain keep j m h.unique,
        lookup-retain keep k m h.unique,
        h.separate j k f g,
      );
}

-- A limiter that no device but one has.
abbrev pub IsOf : String → ℕ → Map BwEntry → ℕ → Type 0
IsOf d i m made =
    (i < made) × ((k : String) (e : BwEntry) → lookup k m ≡ some e → e.limiter ≡ i → k ≡ d)

insert-IsOf :
    (d k : String) (i : ℕ) (x : BwEntry) (m : Map BwEntry)
    → (x.limiter ≡ i → k ≡ d)
    → ((j : String) (e : BwEntry) → lookup j m ≡ some e → e.limiter ≡ i → j ≡ d)
    → (j : String) (e : BwEntry) → lookup j (insert k x m) ≡ some e
    → e.limiter ≡ i
    → j ≡ d
insert-IsOf d k i x m own h j e at same =
    ground (arith, lookup-insert k j x m, eq_iff k j, own, h j e)

-- What an operation does to the table and to the number of limiters. `may` tells which sweeps are made.
pub data Change (may : (BwEntry → Bool) → Type 0) (m : Map BwEntry) (made : ℕ)
    : Map BwEntry → ℕ → Type 0 where
  unchanged : Change may m made m made
  makes :
      (k : String) (now : ℕ)
      → lookup k m ≡ none
      → Change may m made (insert k (record { limiter = made; last_seen = now }) m) (made + 1)
  refreshes :
      (k : String) (now : ℕ) (x : BwEntry)
      → lookup k m ≡ some x
      → Change may m made (insert k (record { limiter = x.limiter; last_seen = now }) m) made
  forgets : (keep : BwEntry → Bool) → may keep → Change may m made (retain keep m) made

pub Change-IsTable :
    {may : (BwEntry → Bool) → Type 0} {m : Map BwEntry} {made : ℕ} {n : Map BwEntry} {more : ℕ}
    → Change may m made n more
    → IsTable m made
    → IsTable n more
Change-IsTable unchanged h = h
Change-IsTable {may} {m} {made} (makes k now new) h = insert-IsTable k now m made h
Change-IsTable {may} {m} {made} (refreshes k now x old) h = refresh-IsTable k now x m made old h
Change-IsTable {may} {m} {made} (forgets keep f) h = retain-IsTable keep m made h

pub Change-IsOf :
    (d : String) (i : ℕ) {may : (BwEntry → Bool) → Type 0} {m : Map BwEntry} {made : ℕ}
    {n : Map BwEntry} {more : ℕ}
    → Change may m made n more
    → IsTable m made
    → IsOf d i m made
    → IsOf d i n more
Change-IsOf d i unchanged t h = h
Change-IsOf d i {may} {m} {made} (makes k now new) t h = (
  omega (arith, h.0),
  insert-IsOf d k i (record { limiter = made; last_seen = now }) m
      (λ e. absurd (omega (arith, h.0, e))) h.1,
)
Change-IsOf d i {may} {m} (refreshes k now x old) t h =
    (h.0, insert-IsOf d k i (record { limiter = x.limiter; last_seen = now }) m (h.1 k x old) h.1)
Change-IsOf d i {may} {m} (forgets keep f) t h =
    (h.0, λ k e at same. ground (arith, lookup-retain keep k m t.unique, h.1 k e))

-- Any sweep, and those that leave a device's entry.
abbrev pub AnySweep : (BwEntry → Bool) → Type 0
AnySweep keep = Unit

abbrev pub SparesIn : String → Map BwEntry → (BwEntry → Bool) → Type 0
SparesIn d m keep = (e : BwEntry) → lookup d m ≡ some e → keep e ≡ true

-- The device is tracked with this limiter.
abbrev pub Has : String → ℕ → Map BwEntry → Type 0
Has d i m = (e : BwEntry) × ((lookup d m ≡ some e) × (e.limiter ≡ i))

pub Change-Has :
    (d : String) (i : ℕ) {m : Map BwEntry} {made : ℕ} {n : Map BwEntry} {more : ℕ}
    → Change (SparesIn d m) m made n more
    → IsTable m made
    → Has d i m
    → Has d i n
Change-Has d i unchanged t h = h
Change-Has d i {m} {made} (makes k now new) t h = (
  h.0,
  ground (arith, h, eq_iff k d, lookup-insert k d (record { limiter = made; last_seen = now }) m),
)
Change-Has d i {m} (refreshes k now x old) t h = elim (Bool-cases (k == d)) [
  | inl same ↦ (
    record { limiter = x.limiter; last_seen = now },
    ground (
      arith,
      h,
      eq_iff k d,
      lookup-insert k d (record { limiter = x.limiter; last_seen = now }) m,
    ),
  )
  | inr other ↦ (
    h.0,
    ground (arith, h, lookup-insert k d (record { limiter = x.limiter; last_seen = now }) m),
  )
]
Change-Has d i {m} (forgets keep f) t h =
    (h.0, ground (arith, h, f h.0, lookup-retain keep d m t.unique))
