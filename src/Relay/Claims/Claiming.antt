-- ===== src/Relay/Claims/Claiming.antt =====
-- A request claims its side of its stream.
use icy_easy_send.Base.{
  ℕ, ◌≡◌, ◌⊎◌, inl, inr, sym, ◌∙◌, ap, subst, String, Bool, true, false, some, lookup, arith,
  eq_iff, eq_refl, eqb, Bool-cases,
}
use icy_easy_send.Stream.Registry.{Stream, Registry, claim_sender, claim_receiver}
use icy_easy_send.Stream.Registry.History as History
use icy_easy_send.Stream.Registry.History.{System, IsSound}
use icy_easy_send.Relay.{Side, sending, receiving, other, Job, Point, routed, waiting, flag, put}
use icy_easy_send.Relay.Claims.{job_of, IsHeld, IsKept}

abbrev pub claim : Side → Stream → Registry → Bool × Registry
claim sending = claim_sender
claim receiving = claim_receiver

module _ (t : Stream) (r : Registry) where
  -- A claim of a free side sets its flag and no other.
  pub claim-free :
      (x : Side)
      → flag x (r.ends t.id) ≡ false
      → ((claim x t r).0 ≡ true)
        × ((claim x t r).1.streams ≡ r.streams)
        × (flag x ((claim x t r).1.ends t.id) ≡ true)
  unfolding claim_sender claim_receiver
  claim-free sending free = ground (arith, eq_refl t.id)
  claim-free receiving free = ground (arith, eq_refl t.id)

  pub claim-taken : (x : Side) → flag x (r.ends t.id) ≡ true → claim x t r ≡ (false, r)
  unfolding claim_sender claim_receiver
  claim-taken sending taken = ground arith
  claim-taken receiving taken = ground arith

  claim-grows :
      (x y : Side) (k : String) → flag y (r.ends k) ≡ true → flag y ((claim x t r).1.ends k) ≡ true
  unfolding claim_sender claim_receiver
  claim-grows sending sending k h = ground (arith, eq_iff t.id k)
  claim-grows sending receiving k h = ground (arith, eq_iff t.id k)
  claim-grows receiving sending k h = ground (arith, eq_iff t.id k)
  claim-grows receiving receiving k h = ground (arith, eq_iff t.id k)

  claim-sets :
      (x y : Side) (k : String)
      → flag y ((claim x t r).1.ends k) ≡ true
      → ((x ≡ y) × (t.id ≡ k)) ⊎ (flag y (r.ends k) ≡ true)
  unfolding claim_sender claim_receiver
  claim-sets sending sending k h = ground (arith, eq_iff t.id k)
  claim-sets sending receiving k h = ground (arith, eq_iff t.id k)
  claim-sets receiving sending k h = ground (arith, eq_iff t.id k)
  claim-sets receiving receiving k h = ground (arith, eq_iff t.id k)

pub claim-Step :
    (x : Side) (t : Stream) {s : System}
    → lookup t.id s.issued ≡ some t
    → History.Step s (record s { registry = (claim x t s.registry).1 })
claim-Step sending t known = History.claims_sender t known
claim-Step receiving t known = History.claims_receiver t known

module _ (max : ℕ) (s : System) (requests : ℕ → Point) (i : IsKept s requests) (v : IsSound max s)
    (n : ℕ) (j : Job) (here : requests n ≡ routed j) where
  mine : {t : Stream} → lookup j.stream.id s.registry.streams ≡ some t → j.stream ≡ t
  mine {t} at = ground (arith, i.known n j (ap job_of here), v.issues j.stream.id t at)

  taken-IsHeld :
      (x : Side) (t : Stream) → j.side ≡ x → j.stream ≡ t → IsHeld (put n (waiting j) requests) x t
  taken-IsHeld x t side stream = record {
    number = n;
    job = j;
    live = ground arith;
    side = side;
    stream = stream;
  }

  others-IsHeld :
      {x : Side} {t : Stream} → IsHeld requests x t → IsHeld (put n (waiting j) requests) x t
  others-IsHeld h = record {
    number = h.number;
    job = h.job;
    live = ground (arith, h.live, here);
    side = h.side;
    stream = h.stream;
  }

  claimed_side :
      (x : Side) (k : String) (t : Stream)
      → lookup k s.registry.streams ≡ some t
      → flag x ((claim j.side j.stream s.registry).1.ends k) ≡ true
      → IsHeld (put n (waiting j) requests) x t ⊎ (flag x (s.registry.ends k) ≡ true)
  claimed_side x k t at set = elim (claim-sets j.stream s.registry j.side x k set) [
    | inr h ↦ inr h
    | inl (side, own) ↦
        inl (taken-IsHeld x t side (mine (ap (λ a. lookup a s.registry.streams) own ∙ at)))
  ]

  pub claimed-IsKept :
      flag j.side (s.registry.ends j.stream.id) ≡ false
      → IsKept
          (record s { registry = (claim j.side j.stream s.registry).1 })
          (put n (waiting j) requests)
  claimed-IsKept free =
      let (won, same, set) = claim-free j.stream s.registry j.side free in
      let listed : (k : String) (t : Stream)
          → lookup k (claim j.side j.stream s.registry).1.streams ≡ some t
          → lookup k s.registry.streams ≡ some t =
        λ k t at. ap (lookup k) (sym same) ∙ at in
      record {
        known = λ m a h. ground (arith, here, i.known m a, i.known n j);
        claimed = λ m a h. elim (Bool-cases (eqb n m)) [
          | inl e ↦
              let same_job : j ≡ a = ground (arith, e, h) in
              subst
                (λ b. flag b.side ((claim j.side j.stream s.registry).1.ends b.stream.id) ≡ true)
                same_job set
          | inr e ↦
              claim-grows j.stream s.registry j.side a.side a.stream.id
                (i.claimed m a (ground (arith, e, h)))
        ];
        paired = λ m a h.
            claim-grows j.stream s.registry j.side (other a.side) a.stream.id
              (i.paired m a (ground (arith, h)));
        received = λ k t at set'. elim (claimed_side receiving k t (listed k t at) set') [
          | inl h ↦ h
          | inr h ↦ others-IsHeld (i.received k t (listed k t at) h)
        ];
        sent = λ k t at set'. elim (claimed_side sending k t (listed k t at) set') [
          | inl h ↦ inl h
          | inr h ↦ elim (i.sent k t (listed k t at) h) [
            | inl h' ↦ inl (others-IsHeld h')
            | inr f ↦ inr (claim-grows j.stream s.registry j.side receiving k f)
          ]
        ];
        alone = λ m l a b x y side id.
            ground (arith, here, free, i.alone m l a b, i.claimed m a, i.claimed l b);
      }
