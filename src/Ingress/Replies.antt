-- ===== src/Ingress/Replies.antt =====
-- What a successful wait for DNS or HTTP has seen.
use kibertas.Prelude.{
  text_or, ◌<>◌, [], ◌*◌, ℕ, String, Bool, true, false, Option, none, some, Option-cases, inl, inr,
  List, ◌∷◌, ◌≡◌, refl, ap, sym, ◌∙◌, arith,
}
use mathlib.Core.Path.{subst}
use mathlib.Core.List.{Memᴰ}
use kibertas.Api.{Call, Reply, answer, refused, Rr, a_record, other_record}
use kibertas.Run.{State, Outcome, ok, fail, Env, check_nil, IsLawful, ◌>>=◌}
use kibertas.Run.Seen.{Seen, here}
use kibertas.Run.Trace.{same}
use kibertas.Ingress.Effects.{record_available-Within, service_available-Within}
use kibertas.K8s.{second}
use kibertas.Run.Shows.{Seen-IsObservation, Shows, Shows-poll, any_call}
use kibertas.Go.Errors.{Error}
use kibertas.Notify.{add_message}
use kibertas.Ingress.Objects.{Ingress}
use kibertas.Ingress.Check.{
  first_address, found_address, read_records, record_available, check_dns_record, read_status,
  service_available, check_http, endpoint,
}

-- The answer to a DNS query for the external host name, among whose records was an address.
abbrev pub Resolved : Env → Ingress → List Call → Call → Type 0
Resolved env i before c =
    (c ≡ Call.exchange (env.fqdn i.external_hostname) "8.8.8.8:53")
    × ((rs : List Rr) × (a : String) × (env.records before c ≡ answer rs) × Memᴰ (a_record a) rs)

-- The answer to a request to the endpoint, which was 200.
abbrev pub Served : Env → Ingress → List Call → Call → Type 0
Served env i before c =
    (c
      ≡ Call.http_get (text_or i.http_check_endpoint ("http://" <> (i.external_hostname <> "/")))
          i.external_hostname)
    × (env.response before c ≡ answer 200)

-- what is found is among the records
first_address-Mem : (rs : List Rr) (a : String) → first_address rs ≡ some a → Memᴰ (a_record a) rs
unfolding first_address
first_address-Mem [] a h = cc h
first_address-Mem (a_record b ∷ rs) a h = Memᴰ.head (cc h)
first_address-Mem (other_record ∷ rs) a h = Memᴰ.tail (first_address-Mem rs a h)

found_address-true :
    (o : Option String) (env : Env) (s : State) {t : State}
    → found_address o env s ≡ (ok true, t)
    → (a : String) × (o ≡ some a) × (t.calls ≡ s.calls)
unfolding found_address add_message ◌>>=◌
found_address-true none env s h = cc
found_address-true (some a) env s h =
    (a, refl, sym (ap (λ (p : Outcome Bool × State). p.1.calls) h))

read_records-true :
    (r : Reply (List Rr)) (env : Env) (s : State) {t : State}
    → read_records r env s ≡ (ok true, t)
    → (rs : List Rr) × (a : String) × (r ≡ answer rs)
      × (first_address rs ≡ some a)
      × (t.calls ≡ s.calls)
unfolding read_records ◌>>=◌
read_records-true (refused e) env s h = cc
read_records-true (answer rs) env s h =
    let (a, p, q) = found_address-true (first_address rs) env s h in (rs, a, refl, p, q)

record_available-true :
    (i : Ingress) (env : Env) (s : State) {t : State}
    → record_available i env s ≡ (ok true, t)
    → Seen (Resolved env i) s.calls t.calls
unfolding record_available ◌>>=◌
record_available-true i env s {t} h =
    let c = Call.exchange (env.fqdn i.external_hostname) "8.8.8.8:53" in
    let (rs, a, p, q, e) =
      read_records-true (env.records s.calls c) env (record s { calls = c ∷ s.calls }) h in
    subst (Seen (Resolved env i) s.calls) (sym e)
      (here same (refl, (rs, a, p, first_address-Mem rs a q)))

read_status-true :
    (r : Reply ℕ) (env : Env) (s : State) {t : State}
    → read_status r env s ≡ (ok true, t)
    → (r ≡ answer 200) × (t.calls ≡ s.calls)
unfolding read_status add_message ◌>>=◌
read_status-true (refused e) env s h = cc
read_status-true (answer code) env s h = ground arith

abbrev request : Ingress → Call
request i = Call.http_get (endpoint i) i.external_hostname

well_formed :
    (i : Ingress) (env : Env) (s : State)
    → env.bad_url (endpoint i) ≡ none
    → service_available i env s
      ≡ read_status
          (env.response s.calls (request i))
          env
          (record s { calls = request i ∷ s.calls })
unfolding service_available ◌>>=◌
well_formed i env s h = rw (h, check_nil)

ill_formed :
    (i : Ingress) (env : Env) (s : State) (e : Error)
    → env.bad_url (endpoint i) ≡ some e
    → service_available i env s ≡ (fail e, s)
unfolding service_available ◌>>=◌
ill_formed i env s e h = rw (h, check_nil)

service_available-true :
    (i : Ingress) (env : Env) (s : State) {t : State}
    → service_available i env s ≡ (ok true, t)
    → Seen (Served env i) s.calls t.calls
service_available-true i env s {t} h = elim (Option-cases (env.bad_url (endpoint i))) [
  | inl good ↦
      let (p, e) =
        read_status-true (env.response s.calls (request i)) env
          (record s { calls = request i ∷ s.calls }) (sym (well_formed i env s good) ∙ h) in
      subst (Seen (Served env i) s.calls) (sym e) (here same (refl, p))
  | inr (e, bad) ↦ cc (ill_formed i env s e bad)
]

pub check_dns_record-Resolved :
    (i : Ingress) (env : Env)
    → IsLawful env
    → Shows env (Seen (Resolved env i)) (check_dns_record i)
unfolding check_dns_record
check_dns_record-Resolved i env l =
    Shows-poll l Seen-IsObservation (30 * second) i.timeout false
      "waiting for DNS Record to be ready: " (record_available i)
      (any_call (record_available-Within i)) (λ s t h. record_available-true i env s h)

pub check_http-Served :
    (i : Ingress) (env : Env) → IsLawful env → Shows env (Seen (Served env i)) (check_http i)
unfolding check_http
check_http-Served i env l =
    Shows-poll l Seen-IsObservation (10 * second) i.timeout false
      "waiting for HTTP service to be ready: " (service_available i)
      (any_call (service_available-Within i)) (λ s t h. service_available-true i env s h)
