-- ===== src/Config/Limits.antt =====
-- src/adapters/config.rs: the limits in time that the registrations of an accepted configuration have.
use Prim.Native.String.{◌++◌ as text_append}
use aku_supervisor.Base.{
  not, length, ℕ, ◌+◌, ◌≤◌, ◌<◌, String, Bool, some, List, [], ◌∷◌, ◌++◌, ◌==◌, ltb, All, map, inl,
  inr, ◌⊎◌, ◌≡◌, refl, arith,
}
use aku_supervisor.Health.{HealthCheckSpec, timeout, startup_deadline}
use aku_supervisor.Config.Types.{
  StartupPrerequisite, HealthCheck, ServiceConfig, ConfigIssue, issue, Outside,
}
use aku_supervisor.Config.Texts.{is_blank, valid_service_id}
use aku_supervisor.Config.Places.{validate_directory, validate_executable}
use aku_supervisor.Config.Checks.{
  report, validate_transport_deadlines, validate_http_fields, validate_health,
  validate_startup_prerequisite, prerequisites_from, validate_startup_prerequisites,
}
use aku_supervisor.Config.PortLists.{append-nil-both, report-none}
use aku_supervisor.Config.Registrations.{health_spec, prerequisite_spec}
use aku_supervisor.Config.Validation.{service_issues}

-- A check over the network has a timeout, which is not 0 and not above the startup deadline.
abbrev pub IsTimely : {J : Type 0} → HealthCheckSpec J → Type 0
IsTimely check =
    (limit : ℕ) × (timeout check ≡ some limit) × (0 < limit) × (limit ≤ startup_deadline check)

timely :
    {J : Type 0} (check : HealthCheckSpec J) (limit : ℕ)
    → timeout check ≡ some limit
    → (0 < limit) × (limit ≤ startup_deadline check)
    → IsTimely check
timely check limit named within = (limit, named, within.0, within.1)

deadlines :
    (limit deadline : ℕ) (prefix : String)
    → validate_transport_deadlines limit deadline prefix ≡ []
    → (0 < limit) × (limit ≤ deadline)
unfolding validate_transport_deadlines
deadlines limit deadline prefix e =
    let parts = append-nil-both _ _ e in
    let nonzero = report-none (limit == 0) _ parts.0 in
    let within = report-none (ltb deadline limit) _ parts.1 in
    (ground (arith, nonzero), ground (arith, within))

module _ {J : Type 0} (outside : Outside J) where
  http_deadlines :
      (url : String) (limit deadline : ℕ) (prefix : String)
      → validate_http_fields outside url limit deadline prefix ≡ []
      → (0 < limit) × (limit ≤ deadline)
  unfolding validate_http_fields
  http_deadlines url limit deadline prefix e =
      deadlines limit deadline prefix (append-nil-both _ _ e).1

  health-IsTimely :
      (health : HealthCheck J) (prefix : String)
      → validate_health outside health prefix ≡ []
      → (health ≡ HealthCheck.process) ⊎ IsTimely (health_spec health)
  unfolding validate_health timeout startup_deadline
  health-IsTimely HealthCheck.process prefix e = inl refl
  health-IsTimely (HealthCheck.tcp_connect host port limit deadline) prefix e =
      let ports = append-nil-both _ _ e in
      let times = append-nil-both _ _ ports.1 in
      inr (
        timely {J = J} (HealthCheckSpec.tcp_connect host port limit deadline) limit refl
          (deadlines limit deadline prefix times.1))
  health-IsTimely (HealthCheck.http_status url status limit deadline) prefix e =
      let parts = append-nil-both _ _ e in
      inr (
        timely {J = J} (HealthCheckSpec.http_status url status limit deadline) limit refl
          (http_deadlines url limit deadline prefix parts.0))
  health-IsTimely (HealthCheck.http_json url limit deadline mode expect observe) prefix e =
      let parts = append-nil-both _ _ e in
      inr (
        timely {J = J} (HealthCheckSpec.http_json url limit deadline mode expect observe) limit refl
          (http_deadlines url limit deadline prefix parts.0))

  prerequisite-IsTimely :
      (prerequisite : StartupPrerequisite) (prefix : String)
      → validate_startup_prerequisite outside prerequisite prefix ≡ []
      → IsTimely {J = J} (prerequisite_spec prerequisite)
  unfolding validate_startup_prerequisite timeout startup_deadline
  prerequisite-IsTimely (StartupPrerequisite.tcp_connect host port limit deadline) prefix e =
      let after_host = append-nil-both _ _ e in
      let after_port = append-nil-both _ _ after_host.1 in
      let parts = append-nil-both _ _ after_port.1 in
      let nonzero = report-none (limit == 0) _ parts.0 in
      let within = report-none (ltb deadline limit) _ parts.1 in
      (limit, refl, ground (arith, nonzero), ground (arith, within))

  prerequisites-IsTimely :
      (index : ℕ) (prerequisites : List StartupPrerequisite) (prefix : String)
      → prerequisites_from outside index prerequisites prefix ≡ []
      → All (IsTimely {J = J}) (map prerequisite_spec prerequisites)
  unfolding prerequisites_from
  prerequisites-IsTimely index [] prefix e = tt
  prerequisites-IsTimely index (p ∷ ps) prefix e =
      let parts = append-nil-both _ _ e in
      (prerequisite-IsTimely p _ parts.0, prerequisites-IsTimely (index + 1) ps prefix parts.1)

  -- What a service without issues is limited to.
  pub record IsLimited (service : ServiceConfig J) : Type 0 where
    pub grace : 0 < service.shutdown_grace_ms
    pub health : (service.health ≡ HealthCheck.process) ⊎ IsTimely (health_spec service.health)
    pub prerequisites : All (IsTimely {J = J}) (map prerequisite_spec service.startup_prerequisites)

  fifth : (a b c d xs : List ConfigIssue) → a ++ (b ++ (c ++ (d ++ xs))) ≡ [] → xs ≡ []
  fifth a b c d xs e =
      let after_a = append-nil-both a (b ++ (c ++ (d ++ xs))) e in
      let after_b = append-nil-both b (c ++ (d ++ xs)) after_a.1 in
      let after_c = append-nil-both c (d ++ xs) after_b.1 in (append-nil-both d xs after_c.1).1

  service_issues-timed :
      (check : Bool) (id prefix : String) (service : ServiceConfig J)
      → service_issues outside check id prefix service ≡ []
      → report (service.shutdown_grace_ms == 0) (
            issue
              (text_append prefix ".shutdownGraceMs")
              "shutdown_grace_invalid"
              "shutdown grace must be greater than zero")
          ++ (validate_health outside service.health prefix
              ++ validate_startup_prerequisites outside service.startup_prerequisites prefix)
        ≡ []
  unfolding service_issues
  service_issues-timed check id prefix service e =
      fifth
        (report (not (valid_service_id id)) (
          issue (text_append prefix ".id") "service_id_invalid"
            "service ID must contain lowercase ASCII letters, digits, or hyphens"))
        (report (is_blank service.label) (
          issue (text_append prefix ".label") "service_label_empty"
            "service label must not be empty"))
        (validate_directory outside service.cwd prefix check)
        (validate_executable outside service.command prefix check) _ e

  pub service_issues-IsLimited :
      (check : Bool) (id prefix : String) (service : ServiceConfig J)
      → service_issues outside check id prefix service ≡ []
      → IsLimited service
  unfolding validate_startup_prerequisites
  service_issues-IsLimited check id prefix service e =
      let health = validate_health outside service.health prefix in
      let needed = validate_startup_prerequisites outside service.startup_prerequisites prefix in
      let timed =
        append-nil-both
          (report (service.shutdown_grace_ms == 0) (
            issue (text_append prefix ".shutdownGraceMs") "shutdown_grace_invalid"
              "shutdown grace must be greater than zero"))
          (health ++ needed) (service_issues-timed check id prefix service e) in
      let checked = append-nil-both health needed timed.1 in
      let nonzero = report-none (service.shutdown_grace_ms == 0) _ timed.0 in
      let counted =
        append-nil-both
          (report (ltb 8 (length service.startup_prerequisites)) (
            issue (text_append prefix ".startupPrerequisites") "startup_prerequisites_too_many"
              "at most 8 startup prerequisites are allowed"))
          (prerequisites_from outside 0 service.startup_prerequisites prefix) checked.1 in
      record {
        grace = ground (arith, nonzero);
        health = health-IsTimely service.health prefix checked.0;
        prerequisites = prerequisites-IsTimely 0 service.startup_prerequisites prefix counted.1;
      }
