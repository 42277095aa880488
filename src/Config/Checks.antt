-- ===== src/Config/Checks.antt =====
-- src/adapters/config.rs: the checks of one service's health contract, prerequisites and paths. Each
-- gives the issues that it pushes, in order.
use Prim.Native.String.{◌++◌ as text_append}
use aku_supervisor.Base.{
  ℕ, ◌+◌, String, Bool, true, false, not, ◌&&◌, ◌||◌, Option, none, some, List, [], ◌∷◌, ◌++◌, leb,
  ltb, ◌==◌, is_empty, length, str_eq,
}
use aku_supervisor.Base.Maps.{OrdMap, keys, values}
use aku_supervisor.Health.{JsonPathMode}
use aku_supervisor.Config.Types.{StartupPrerequisite, HealthCheck, ConfigIssue, issue, Outside}
use aku_supervisor.Config.Texts.{codes, strip_prefix, first_part, valid_json_pointer}

-- A guarded push.
unfoldable pub report : Bool → ConfigIssue → List ConfigIssue
report true found = found ∷ []
report false found = []

unfoldable pub validate_transport_deadlines : ℕ → ℕ → String → List ConfigIssue
validate_transport_deadlines timeout_ms startup_deadline_ms prefix =
    report (timeout_ms == 0) (
      issue (text_append prefix ".health.timeoutMs") "health_timeout_invalid"
        "health timeout must be greater than zero")
    ++ report (ltb startup_deadline_ms timeout_ms) (
        issue (text_append prefix ".health.startupDeadlineMs") "startup_deadline_invalid"
          "startup deadline must be at least the health timeout")

unfoldable pub pointer_issues : String → List String → List ConfigIssue
pointer_issues path [] = []
pointer_issues path (pointer ∷ pointers) =
    report (not (valid_json_pointer pointer)) (
      issue path "health_json_pointer_invalid"
        (text_append "invalid RFC 6901 JSON Pointer: " pointer))
    ++ pointer_issues path pointers

abbrev pub any : {A : Type 0} → (A → Bool) → List A → Bool
any p [] = false
any p (x ∷ xs) = p x || any p xs

unfoldable pub seen : String → List String → Bool
seen x xs = any (λ y. str_eq y x) xs

-- `iter().collect::<BTreeSet<_>>().len() != len()`
unfoldable pub repeats : List String → Bool
repeats [] = false
repeats (x ∷ xs) = seen x xs || repeats xs

module _ {J : Type 0} (outside : Outside J) where
  abbrev mode_issues : JsonPathMode → OrdMap J → List String → String → List ConfigIssue
  mode_issues JsonPathMode.shallow expect observe prefix =
      report (any (λ value. outside.is_array value || outside.is_object value) (values expect)) (
        issue (text_append prefix ".health.expect") "health_expect_not_shallow"
          "shallow HTTP JSON expectations support scalar fields only")
  mode_issues JsonPathMode.json_pointer expect observe prefix =
      pointer_issues (text_append prefix ".health.expect") (keys expect)
      ++ pointer_issues (text_append prefix ".health.observe") observe

  abbrev is_shallow : JsonPathMode → Bool
  is_shallow JsonPathMode.shallow = true
  is_shallow JsonPathMode.json_pointer = false

  unfoldable pub validate_http_json_expectations :
      JsonPathMode → OrdMap J → List String → String → List ConfigIssue
  validate_http_json_expectations path_mode expect observe prefix =
      report (is_empty expect) (
        issue (text_append prefix ".health.expect") "health_expect_empty"
          "HTTP JSON health expectations must not be empty")
      ++ (mode_issues path_mode expect observe prefix
          ++ (report (is_shallow path_mode && any (λ field. is_empty (codes field)) observe) (
                issue (text_append prefix ".health.observe") "health_observe_empty"
                  "shallow HTTP JSON observation fields must not be empty")
              ++ report (repeats observe) (
                  issue (text_append prefix ".health.observe") "health_observe_duplicate"
                    "HTTP JSON observation fields must be unique")))

  abbrev authority_is_loopback : Option String → Bool
  authority_is_loopback none = false
  authority_is_loopback (some remainder) = outside.loopback_socket (first_part 47 remainder)

  unfoldable pub validate_http_fields : String → ℕ → ℕ → String → List ConfigIssue
  validate_http_fields url timeout_ms startup_deadline_ms prefix =
      report (not (authority_is_loopback (strip_prefix "http://" url))) (
        issue (text_append prefix ".health.url") "health_url_invalid"
          "health URL must use an explicit loopback HTTP IP and port")
      ++ validate_transport_deadlines timeout_ms startup_deadline_ms prefix

  unfoldable pub validate_health : HealthCheck J → String → List ConfigIssue
  validate_health HealthCheck.process prefix = []
  validate_health (HealthCheck.tcp_connect host port timeout_ms startup_deadline_ms) prefix =
      report (not (outside.loopback_ip host)) (
        issue (text_append prefix ".health.host") "health_host_invalid"
          "TCP health host must be an explicit loopback IP")
      ++ (report (port == 0) (
            issue (text_append prefix ".health.port") "health_port_invalid"
              "TCP health port must be greater than zero")
          ++ validate_transport_deadlines timeout_ms startup_deadline_ms prefix)
  validate_health (HealthCheck.http_status url expected_status timeout_ms startup_deadline_ms)
        prefix =
      validate_http_fields url timeout_ms startup_deadline_ms prefix
      ++ report (not (leb 100 expected_status && leb expected_status 599)) (
          issue (text_append prefix ".health.expectedStatus") "health_status_invalid"
            "expected HTTP status must be between 100 and 599")
  validate_health
        (HealthCheck.http_json url timeout_ms startup_deadline_ms path_mode expect observe) prefix =
      validate_http_fields url timeout_ms startup_deadline_ms prefix
      ++ validate_http_json_expectations path_mode expect observe prefix

  unfoldable pub validate_startup_prerequisite : StartupPrerequisite → String → List ConfigIssue
  validate_startup_prerequisite
        (StartupPrerequisite.tcp_connect host port timeout_ms startup_deadline_ms) prefix =
      report (not (outside.loopback_ip host)) (
        issue (text_append prefix ".host") "startup_prerequisite_host_invalid"
          "TCP startup prerequisite host must be an explicit loopback IP")
      ++ (report (port == 0) (
            issue (text_append prefix ".port") "startup_prerequisite_port_invalid"
              "TCP startup prerequisite port must be greater than zero")
          ++ (report (timeout_ms == 0) (
                issue (text_append prefix ".timeoutMs") "startup_prerequisite_timeout_invalid"
                  "startup prerequisite timeout must be greater than zero")
              ++ report (ltb startup_deadline_ms timeout_ms) (
                  issue (text_append prefix ".startupDeadlineMs")
                    "startup_prerequisite_deadline_invalid"
                    "startup prerequisite deadline must be at least its timeout")))

  unfoldable pub prerequisites_from : ℕ → List StartupPrerequisite → String → List ConfigIssue
  prerequisites_from index [] prefix = []
  prerequisites_from index (prerequisite ∷ rest) prefix =
      validate_startup_prerequisite prerequisite
        (text_append (text_append prefix ".startupPrerequisites.") (outside.display index))
      ++ prerequisites_from (index + 1) rest prefix

  unfoldable pub validate_startup_prerequisites :
      List StartupPrerequisite → String → List ConfigIssue
  validate_startup_prerequisites prerequisites prefix =
      report (ltb 8 (length prerequisites)) (
        issue (text_append prefix ".startupPrerequisites") "startup_prerequisites_too_many"
          "at most 8 startup prerequisites are allowed")
      ++ prerequisites_from 0 prerequisites prefix
