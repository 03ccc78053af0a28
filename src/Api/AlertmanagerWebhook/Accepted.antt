-- ===== src/Api/AlertmanagerWebhook/Accepted.antt =====
-- Which signals the webhook of apps/api/handlers/alertmanager_webhook.go sends.
use infrawatch.Prelude.{
  ◌≡◌, refl, sym, ap, subst, ◌∙◌, ◌⊎◌, inl, inr, ◌≢◌, ℕ, String, true, List, [], ◌∷◌, ◌++◌, Option,
  none, some, str_eq, eq_iff, arith, length, ◌+◌, suc, length-append, get_or, All, Bool-cases,
  Option-cases,
}
use infrawatch.Prelude.Map.{lookup}
use infrawatch.Prelude.Time.{Instant}
use infrawatch.Config.{ServiceConfig, is_passive}
use infrawatch.Health.Poller.{find_service}
use infrawatch.Api.AlertmanagerWebhook.{
  AlertmanagerAlert, service_label, ExternalAlertSignal, Skipped, Outcome, signal_of,
  publish_signal, receive_found, receive_alert, receive_alerts, no_outcome, receive,
}

-- The names of the signals.
abbrev pub names_of : List ExternalAlertSignal → List String
names_of [] = []
names_of (s ∷ ss) = s.service_name ∷ names_of ss

-- The signal is for a configured passive service.
abbrev pub IsMeant : List ServiceConfig → ExternalAlertSignal → Type 0
IsMeant services sig =
    (svc : ServiceConfig) × (find_service sig.service_name services ≡ some svc)
    × (is_passive svc ≡ true)

-- n alerts were looked at: each of them is accepted or skipped, and the accepted ones are published.
pub record IsCounted (services : List ServiceConfig) (n : ℕ) (o : Outcome) : Type 0 where
  pub names : o.accepted ≡ names_of o.published
  pub meant : All (IsMeant services) o.published
  pub counted : length o.accepted + length o.skipped ≡ n

names_of-append :
    (ss : List ExternalAlertSignal) (s : ExternalAlertSignal)
    → names_of (ss ++ s ∷ []) ≡ names_of ss ++ s.service_name ∷ []
names_of-append [] s = refl
names_of-append (x ∷ ss) s = ap (λ l. x.service_name ∷ l) (names_of-append ss s)

append-IsMeant :
    (services : List ServiceConfig) (ss : List ExternalAlertSignal) (s : ExternalAlertSignal)
    → All (IsMeant services) ss
    → IsMeant services s
    → All (IsMeant services) (ss ++ s ∷ [])
append-IsMeant services [] s a m = (m, tt)
append-IsMeant services (x ∷ ss) s a m = (a.0, append-IsMeant services ss s a.1 m)

skip-IsCounted :
    (services : List ServiceConfig) (n : ℕ) (o : Outcome) (s : Skipped)
    → IsCounted services n o
    → IsCounted services (suc n) (record o { skipped = o.skipped ++ s ∷ [] })
skip-IsCounted services n o s v = record {
  names = v.names;
  meant = v.meant;
  counted = omega (arith, v.counted, length-append o.skipped (s ∷ []));
}

publish_signal-IsCounted :
    (redis : ExternalAlertSignal → Option String) (services : List ServiceConfig) (n : ℕ)
    (sig : ExternalAlertSignal) (o : Outcome)
    → IsMeant services sig
    → IsCounted services n o
    → IsCounted services (suc n) (publish_signal redis sig o)
unfolding publish_signal
publish_signal-IsCounted redis services n sig o m v = elim (Option-cases (redis sig)) [
  | inl e ↦
      rw (e, publish_signal)
        (record {
          names =
              ap (λ l. l ++ sig.service_name ∷ []) v.names ∙ sym (names_of-append o.published sig);
          meant = append-IsMeant services o.published sig v.meant m;
          counted = omega (arith, v.counted, length-append o.accepted (sig.service_name ∷ []));
        })
  | inr (t, e) ↦ rw (e, publish_signal) (skip-IsCounted services n o _ v)
]

receive_found-IsCounted :
    (redis : ExternalAlertSignal → Option String) (services : List ServiceConfig) (n : ℕ)
    (alert : AlertmanagerAlert) (name : String) (now : Instant) (found : Option ServiceConfig)
    (o : Outcome)
    → find_service name services ≡ found
    → IsCounted services n o
    → IsCounted services (suc n) (receive_found redis alert name now found o)
unfolding receive_found
receive_found-IsCounted redis services n alert name now none o f v = skip-IsCounted services n o _ v
receive_found-IsCounted redis services n alert name now (some svc) o f v =
    elim (Bool-cases (is_passive svc)) [
      | inl e ↦
          rw e
            (publish_signal-IsCounted redis services n (signal_of alert name now) o (svc, f, e) v)
      | inr e ↦ rw e (skip-IsCounted services n o _ v)
    ]

receive_alert-IsCounted :
    (redis : ExternalAlertSignal → Option String) (services : List ServiceConfig) (n : ℕ)
    (now : Instant) (alert : AlertmanagerAlert) (o : Outcome)
    → IsCounted services n o
    → IsCounted services (suc n) (receive_alert redis services now alert o)
unfolding receive_alert
receive_alert-IsCounted redis services n now alert o v =
    let name = get_or (lookup service_label alert.labels) "" in
    elim (Bool-cases (str_eq name "")) [
      | inl e ↦ rw e (skip-IsCounted services n o _ v)
      | inr e ↦ rw e (
          receive_found-IsCounted redis services n alert name now (find_service name services) o
            refl v)
    ]

receive_alerts-IsCounted :
    (redis : ExternalAlertSignal → Option String) (services : List ServiceConfig) (n : ℕ)
    (now : Instant) (alerts : List AlertmanagerAlert) (o : Outcome)
    → IsCounted services n o
    → IsCounted services (n + length alerts) (receive_alerts redis services now alerts o)
unfolding receive_alerts
receive_alerts-IsCounted redis services n now [] o v =
    subst (λ k. IsCounted services k o) (omega arith) v
receive_alerts-IsCounted redis services n now (alert ∷ alerts) o v =
    let more : suc n + length alerts ≡ n + suc (length alerts) = omega arith in
    subst
      (λ k.
        IsCounted services k
          (receive_alerts redis services now alerts (receive_alert redis services now alert o)))
      more
      (receive_alerts-IsCounted redis services (suc n) now alerts
        (receive_alert redis services now alert o)
        (receive_alert-IsCounted redis services n now alert o v))

all-IsCounted :
    (redis : ExternalAlertSignal → Option String) (services : List ServiceConfig) (now : Instant)
    (alerts : List AlertmanagerAlert)
    → IsCounted services (length alerts) (receive_alerts redis services now alerts no_outcome)
all-IsCounted redis services now alerts =
    let from_none : 0 + length alerts ≡ length alerts = omega arith in
    subst (λ k. IsCounted services k (receive_alerts redis services now alerts no_outcome))
      from_none
      (receive_alerts-IsCounted redis services 0 now alerts no_outcome
        (record { names = refl; meant = tt; counted = omega arith }))

-- A request with the configured secret, which is not empty, a body and a readable configuration is answered with 202: every alert is accepted or skipped, the accepted ones are those whose
-- signal is published, and each signal is for a configured passive service. With any other secret, or none configured, nothing is published.
pub receive-IsCounted :
    (redis : ExternalAlertSignal → Option String) (now : Instant) (secret given : String)
    (alerts : List AlertmanagerAlert) (services : List ServiceConfig)
    → (((given ≡ secret) × (◌≢◌ {A = String} secret ""))
        × ((receive redis now secret given (some alerts) (inl services)).0 ≡ 202)
        × IsCounted services
            (length alerts)
            (receive redis now secret given (some alerts) (inl services)).1)
      ⊎ (((secret ≡ "") ⊎ (given ≢ secret))
          × ((receive redis now secret given (some alerts) (inl services)).1 ≡ no_outcome))
unfolding receive
receive-IsCounted redis now secret given alerts services = elim (Bool-cases (str_eq secret "")) [
  | inl e ↦ inr (inl ((eq_iff secret "").0 e), rw e refl)
  | inr e ↦ elim (Bool-cases (str_eq given secret)) [
    | inl g ↦ inl (
      ((eq_iff given secret).0 g, ground (arith, e, eq_iff secret "")),
      rw (e, g) refl,
      rw (e, g) (all-IsCounted redis services now alerts),
    )
    | inr g ↦ inr (inr (ground (arith, g, eq_iff given secret)), rw (e, g) refl)
  ]
]
