-- ===== src/Relay/Routing.antt =====
-- Which requests get behind the switch of ServeHTTP, and with which stream.
use icy_easy_send.Base.{◌≡◌, refl, sym, ◌∙◌, ap, subst, String, some, lookup, arith, Option-cases}
use icy_easy_send.Stream.Registry.{Stream, Registry, get}
use icy_easy_send.Stream.Registry.Invariant.{IsValid}
use icy_easy_send.Stream.Handler.{
  Request, Options, Route, refused, to_sender, to_receiver, serve_http,
}
use icy_easy_send.Stream.Handler.Admission.{Serves-of, Admits}
use icy_easy_send.Signal.Transfers.{get-HasOwnId}
use icy_easy_send.Relay.{Side, sending, receiving, Job, behind_switch}
use icy_easy_send.Relay.Claims.{job_of}

-- The device that may be on this side of the stream.
abbrev pub device_of : Side → Stream → String
device_of sending s = s.sender
device_of receiving s = s.receiver

abbrev Leads : Route → Side → Stream → Type 0
Leads route sending s = (device : String) × (route ≡ to_sender s device)
Leads route receiving s = route ≡ to_receiver s

abbrev IsLed : Request → Route → Job → Type 0
IsLed r route j = (j.request ≡ r) × Leads route j.side j.stream

behind_switch-IsLed :
    (r : Request) (route : Route) (j : Job)
    → job_of (behind_switch r route) ≡ some j
    → IsLed r route j
behind_switch-IsLed r (refused response) j h = absurd (ground (arith, h))
behind_switch-IsLed r (to_sender s device) j h =
    let same : record { side = sending; stream = s; request = r } ≡ j = cc h in
    subst (IsLed r (to_sender s device)) same (refl, (device, refl))
behind_switch-IsLed r (to_receiver s) j h =
    let same : record { side = receiving; stream = s; request = r } ≡ j = cc h in
    subst (IsLed r (to_receiver s)) same (refl, refl)

module _ (o : Options) (r : Request) (reg : Registry) where
  Leads-Admits :
      (x : Side) (s : Stream)
      → Leads (serve_http o r reg).0 x s
      → Admits o r reg s × (device_of x s ≡ r.device_id)
  Leads-Admits sending s (d, h) =
      let (t, a, e) = Serves-of o r reg (to_sender s d) refl h in
      (subst (Admits o r reg) (sym e.0) a, ap (λ (u : Stream). u.sender) e.0 ∙ e.2)
  Leads-Admits receiving s h =
      let (t, a, e) = Serves-of o r reg (to_receiver s) refl h in
      (subst (Admits o r reg) (sym e.0) a, ap (λ (u : Stream). u.receiver) e.0 ∙ e.1)

  -- The request of a job that gets there is admitted, for the device of its side.
  pub routed-Admits :
      (j : Job)
      → job_of (behind_switch r (serve_http o r reg).0) ≡ some j
      → (j.request ≡ r) × Admits o r reg j.stream × (device_of j.side j.stream ≡ r.device_id)
  routed-Admits j h =
      let (same, leads) = behind_switch-IsLed r (serve_http o r reg).0 j h in
      let (a, own) = Leads-Admits j.side j.stream leads in (same, a, own)

  -- Its stream is listed.
  pub routed-listed :
      (j : Job)
      → IsValid reg
      → job_of (behind_switch r (serve_http o r reg).0) ≡ some j
      → lookup j.stream.id reg.streams ≡ some j.stream
  unfolding get
  routed-listed j v h =
      let (same, a, own) = routed-Admits j h in
      let id : j.stream.id ≡ a.stream = get-HasOwnId a.stream j.stream reg v a.listed in
      rw id (ground (arith, Option-cases (lookup a.stream reg.streams), a.listed))
