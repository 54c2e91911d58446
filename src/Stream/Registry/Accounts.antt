-- ===== src/Stream/Registry/Accounts.antt =====
-- How many streams a device is charged for, and how the registry's operations change that number.
use icy_easy_send.Base.{
  ℕ, ◌+◌, ◌-◌, ◌≡◌, ◌≢◌, refl, String, none, some, [], ◌∷◌, Map, lookup, insert, delete,
  lookup-insert, lookup-delete, HasUniqueKeys, ◌==◌, eq_iff, if◌then◌else◌, arith,
}
use icy_easy_send.Stream.Registry.{Stream, charged, refund}

-- The number of streams in the map that the device owns.
abbrev pub owned : String → Map Stream → ℕ
owned d [] = 0
owned d ((k, s) ∷ m) = (if s.owner == d then 1 else 0) + owned d m

pub owned-insert :
    (d k : String) (s : Stream) (m : Map Stream)
    → lookup k m ≡ none
    → owned d (insert k s m) ≡ (if s.owner == d then 1 else 0) + owned d m
unfolding lookup insert
owned-insert d k s [] h = refl
owned-insert d k s ((j, t) ∷ m) h = ground (arith, owned-insert d k s m)

pub delete-absent : (k : String) (m : Map Stream) → lookup k m ≡ none → delete k m ≡ m
unfolding lookup delete
delete-absent k [] h = refl
delete-absent k ((j, t) ∷ m) h = ground (arith, delete-absent k m)

pub owned-delete :
    (d k : String) (s : Stream) (m : Map Stream)
    → HasUniqueKeys m
    → lookup k m ≡ some s
    → owned d m ≡ (if s.owner == d then 1 else 0) + owned d (delete k m)
unfolding lookup delete
owned-delete d k s [] u h = ground arith
owned-delete d k s ((j, t) ∷ m) u h =
    ground (arith, owned-delete d k s m u.1, eq_iff j k, delete-absent k m)

pub charged-insert :
    (o d : String) (n : ℕ) (counts : Map ℕ)
    → charged d (insert o n counts) ≡ (if o == d then n else charged d counts)
charged-insert o d n counts = ground (arith, lookup-insert o d n counts)

-- A refund takes from the one account only, and stops at zero.
pub charged-refund :
    (n : ℕ) (o d : String) (counts : Map ℕ)
    → charged d (refund n o counts) ≡ (if o == d then charged d counts - n else charged d counts)
unfolding refund
charged-refund n o d counts =
    ground
      (arith, eq_iff o d, lookup-delete o d counts, lookup-insert o d (charged o counts - n) counts)

-- No account stays in the table at zero.
abbrev pub HasNoZero : Map ℕ → Type 0
HasNoZero counts = (d : String) → lookup d counts ≢ some 0

pub refund-HasNoZero :
    (n : ℕ) (o : String) (counts : Map ℕ) → HasNoZero counts → HasNoZero (refund n o counts)
unfolding refund
refund-HasNoZero n o counts z d h =
    ground (arith, z d, lookup-delete o d counts, lookup-insert o d (charged o counts - n) counts)
