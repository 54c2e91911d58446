-- ===== src/Relay/Signatures.antt =====
-- Whose requests the relay serves, in every reachable state.
use icy_easy_send.Base.{ℕ, ◌≡◌, inl, inr, refl, ap, subst, some, arith, eqb, Bool-cases}
use icy_easy_send.Auth.{Crypto}
use icy_easy_send.Config.{Config}
use icy_easy_send.Limit.{Rate}
use icy_easy_send.Limit.Bandwidth.{Shaper}
use icy_easy_send.Stream.Handler.{Phase, Request}
use icy_easy_send.Stream.Handler as Handler
use icy_easy_send.Signal.Server.{Codec}
use icy_easy_send.Signal.Connections as Connections
use icy_easy_send.Signal.Connections.Histories.{Reach-History}
use icy_easy_send.Signal.Transfers.{SignedBy, Admits-SignedBy, handler_options}
use icy_easy_send.Main.{tick}
use icy_easy_send.Relay.{
  Job, Point, put, in_phase, behind_switch, System, signaling, streams_of, connects, ticks, arrives,
  begins, wakes, shapes, writes, pings, finishes, Reach, start, next,
}
use icy_easy_send.Relay.Claims.{job_of}
use icy_easy_send.Relay.Routing.{device_of, routed-Admits}
use icy_easy_send.Relay.Invariant.{Reach-InOrder}

abbrev IsSigned : Crypto → Job → Type 0
IsSigned crypto j = SignedBy crypto (device_of j.side j.stream) j.stream j.request

abbrev AllSigned : Crypto → (ℕ → Point) → Type 0
AllSigned crypto requests = (n : ℕ) (j : Job) → job_of (requests n) ≡ some j → IsSigned crypto j

job_of-in_phase : (j a : Job) (p : Phase) → job_of (in_phase j p) ≡ some a → j ≡ a
job_of-in_phase j a p h = ground (arith, h)

put-AllSigned :
    (crypto : Crypto) (n : ℕ) (p : Point) (requests : ℕ → Point)
    → ((j : Job) → job_of p ≡ some j → IsSigned crypto j)
    → AllSigned crypto requests
    → AllSigned crypto (put n p requests)
put-AllSigned crypto n p requests new v m j h = elim (Bool-cases (eqb n m)) [
  | inl same ↦ new j (ground (arith, h, same))
  | inr apart ↦ v m j (ground (arith, h, apart))
]

-- A request that goes on in its handler.
goes_on :
    (crypto : Crypto) (n : ℕ) (j : Job) (p : Phase) (requests : ℕ → Point)
    → job_of (requests n) ≡ some j
    → AllSigned crypto requests
    → AllSigned crypto (put n (in_phase j p) requests)
goes_on crypto n j p requests here v =
    put-AllSigned crypto n (in_phase j p) requests
      (λ a h. subst (IsSigned crypto) (job_of-in_phase j a p h) (v n j here)) v

module _ (rate : Rate) (shaper : Shaper) (codec : Codec) (crypto : Crypto) (cfg : Config) where
  Reach-signaling :
      {x : System rate shaper}
      → Reach rate shaper codec crypto cfg x
      → Connections.Reach rate codec crypto (signaling rate shaper x)
  unfolding tick
  Reach-signaling start = Connections.start _ refl
  Reach-signaling (next r (connects drawn fresh m)) =
      Connections.next (Reach-signaling r) (Connections.moves drawn m)
  Reach-signaling (next r (ticks now)) =
      Connections.next (Reach-signaling r) (Connections.others _ refl)
  Reach-signaling (next r (arrives n request here)) = Reach-signaling r
  Reach-signaling (next r (begins n j here)) =
      Connections.next (Reach-signaling r) (Connections.others _ refl)
  Reach-signaling (next r (wakes n j w here met)) =
      Connections.next (Reach-signaling r) (Connections.others _ refl)
  Reach-signaling (next r (shapes d now)) = Reach-signaling r
  Reach-signaling (next r (writes ref failed)) =
      Connections.next (Reach-signaling r) (Connections.others _ refl)
  Reach-signaling (next r (pings ref t)) =
      Connections.next (Reach-signaling r) (Connections.others _ refl)
  Reach-signaling (next r (finishes n j written e here)) =
      Connections.next (Reach-signaling r) (Connections.others _ refl)

  arrival-IsSigned :
      {x : System rate shaper} (r : Request) (j : Job)
      → Reach rate shaper codec crypto cfg x
      → let o = handler_options cfg.token crypto x.relay.world.hub in
        job_of (behind_switch r (Handler.serve_http o r (streams_of rate shaper x)).0) ≡ some j
        → IsSigned crypto j
  arrival-IsSigned {x} r j reached h =
      let o = handler_options cfg.token crypto x.relay.world.hub in
      let (same, a, own) = routed-Admits o r (streams_of rate shaper x) j h in
      let i = Reach-InOrder rate shaper codec crypto cfg reached in
      let signed =
        Admits-SignedBy rate codec crypto cfg.token r j.stream x.relay.world
          (Reach-History rate codec crypto (Reach-signaling reached)) i.sound.valid a in
      rw (own, same) signed

  Reach-AllSigned :
      {x : System rate shaper} → Reach rate shaper codec crypto cfg x → AllSigned crypto x.requests
  Reach-AllSigned start = λ n j h. absurd (ground (arith, h))
  Reach-AllSigned (next r (connects drawn fresh m)) = Reach-AllSigned r
  Reach-AllSigned (next r (ticks now)) = Reach-AllSigned r
  Reach-AllSigned (next {x} r (arrives n request here)) =
      put-AllSigned crypto n _ x.requests (λ j h. arrival-IsSigned request j r h)
        (Reach-AllSigned r)
  Reach-AllSigned (next {x} r (begins n j here)) =
      goes_on crypto n j _ x.requests (ap job_of here) (Reach-AllSigned r)
  Reach-AllSigned (next {x} r (wakes n j w here met)) =
      goes_on crypto n j _ x.requests (ap job_of here) (Reach-AllSigned r)
  Reach-AllSigned (next r (shapes d now)) = Reach-AllSigned r
  Reach-AllSigned (next r (writes ref failed)) = Reach-AllSigned r
  Reach-AllSigned (next r (pings ref t)) = Reach-AllSigned r
  Reach-AllSigned (next {x} r (finishes n j written e here)) =
      goes_on crypto n j _ x.requests (ap job_of here) (Reach-AllSigned r)

  -- Nobody moves another's bytes. In every state that the relay reaches, a request that has come past
  -- the switch of ServeHTTP and is not answered yet carries a signature over the id of its stream
  -- that verifies under a key whose fingerprint is the device of its side: the stream's sender for an
  -- upload, the stream's receiver for a download.
  pub requests_are_signed :
      (x : System rate shaper) (n : ℕ) (j : Job)
      → Reach rate shaper codec crypto cfg x
      → job_of (x.requests n) ≡ some j
      → SignedBy crypto (device_of j.side j.stream) j.stream j.request
  requests_are_signed x n j reached h = Reach-AllSigned reached n j h
