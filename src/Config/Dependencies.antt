-- ===== src/Config/Dependencies.antt =====
-- src/adapters/config.rs: `validate_service_dependencies` and the depth-first search of
-- `dependency_cycle`. `fuel` bounds the depth of its calls.
use Prim.Native.String.{◌++◌ as text_append}
use aku_supervisor.Base.{
  ℕ, zero, suc, String, Option, none, some, is_some, List, [], ◌∷◌, ◌++◌, ◌==◌, if◌then◌else◌,
  length, str_eq,
}
use aku_supervisor.Base.Maps.{OrdMap, keys, lookup, insert}
use aku_supervisor.Config.Types.{ServiceConfig, ConfigIssue, issue}
use aku_supervisor.Config.Checks.{report, seen}

-- The two accumulators of the search: 1 marks a service being visited, 2 one that is done.
pub record Marks : Type 0 where
  pub states : OrdMap ℕ
  pub stack : List String

-- `unfinished` is the model's own: the fuel has run out.
pub data Visited : Type 0 where
  clear : Marks → Visited
  cycle : List String → Visited
  unfinished : Visited

abbrev pub state_of : Option ℕ → ℕ
state_of none = 0
state_of (some state) = state

-- `stack[start..]`, where `start` is the first position of the service, or 0.
unfoldable pub found_from : String → List String → Option (List String)
found_from id [] = none
found_from id (candidate ∷ rest) =
    let later = found_from id rest in if str_eq candidate id then some (candidate ∷ rest) else later

abbrev pub or_whole : List String → Option (List String) → List String
or_whole stack none = stack
or_whole stack (some tail) = tail

abbrev pub cycle_of : String → List String → List String
cycle_of id stack = or_whole stack (found_from id stack) ++ (id ∷ [])

abbrev pub push : String → Marks → Marks
push id m = record { states = insert id 1 m.states; stack = m.stack ++ (id ∷ []) }

unfoldable pub pop : List String → List String
pop [] = []
pop (x ∷ []) = []
pop (x ∷ y ∷ xs) = x ∷ pop (y ∷ xs)

abbrev pub finish : String → Visited → Visited
finish id (clear m) = clear (record { states = insert id 2 m.states; stack = pop m.stack })
finish id (cycle c) = cycle c
finish id unfinished = unfinished

abbrev pub go_on : (Marks → Visited) → Visited → Visited
go_on next (clear m) = next m
go_on next (cycle c) = cycle c
go_on next unfinished = unfinished

unfoldable pub visit_keys : (String → Marks → Visited) → List String → Marks → Visited
visit_keys visited [] m = clear m
visit_keys visited (id ∷ ids) m = go_on (visit_keys visited ids) (visited id m)

abbrev pub nothing_marked : Marks
nothing_marked = record { states = []; stack = [] }

abbrev pub found_cycle : Visited → Option (List String)
found_cycle (clear m) = none
found_cycle (cycle c) = some c
found_cycle unfinished = none

unfoldable pub joined : List String → String
joined [] = ""
joined (x ∷ []) = x
joined (x ∷ y ∷ xs) = text_append (text_append x " -> ") (joined (y ∷ xs))

abbrev pub cycle_issue : Option (List String) → List ConfigIssue
cycle_issue none = []
cycle_issue (some c) =
    issue "services" "service_dependency_cycle"
      (text_append "service dependency cycle detected: " (joined c))
    ∷ []

abbrev pub depends_path : String → String
depends_path id = text_append (text_append "services." id) ".dependsOn"

module _ {J : Type 0} where
  -- The loop over dependencies, which passes over those that are not registered.
  unfoldable pub visit_registered :
      (String → Marks → Visited) → OrdMap (ServiceConfig J) → List String → Marks → Visited
  visit_registered visit services [] m = clear m
  visit_registered visit services (dependency ∷ rest) m =
      if is_some (lookup dependency services)
      then go_on (visit_registered visit services rest) (visit dependency m)
      else visit_registered visit services rest m

  abbrev pub dependencies_of : Option (ServiceConfig J) → List String
  dependencies_of none = []
  dependencies_of (some service) = service.depends_on

  unfoldable pub visit : ℕ → OrdMap (ServiceConfig J) → String → Marks → Visited
  visit zero services id m = unfinished
  visit (suc fuel) services id m =
      let state = state_of (lookup id m.states) in
      let inner = finish id (
        visit_registered (visit fuel services) services (dependencies_of (lookup id services))
          (push id m)) in
      if state == 2 then clear m else (if state == 1 then cycle (cycle_of id m.stack) else inner)

  abbrev pub search : OrdMap (ServiceConfig J) → Visited
  search services =
      visit_keys (visit (suc (length services)) services) (keys services) nothing_marked

  unfoldable pub dependency_cycle : OrdMap (ServiceConfig J) → Option (List String)
  dependency_cycle services = found_cycle (search services)

  abbrev pub known_issues : OrdMap (ServiceConfig J) → String → String → String → List ConfigIssue
  known_issues services path id dependency =
      if str_eq dependency id
      then issue path "service_dependency_self"
          (text_append (text_append "service " id) " cannot depend on itself")
        ∷ []
      else (if is_some (lookup dependency services)
          then []
          else issue path "service_dependency_unknown"
              (text_append (text_append "dependency " dependency) " is not a registered service")
            ∷ [])

  -- The loop over one service's dependencies; `unique` is the set of those seen.
  unfoldable pub dependency_issues :
      OrdMap (ServiceConfig J) → String → String → List String → List String → List ConfigIssue
  dependency_issues services path id unique [] = []
  dependency_issues services path id unique (dependency ∷ rest) =
      known_issues services path id dependency
      ++ (report (seen dependency unique) (
            issue path "service_dependency_duplicate"
              (text_append (text_append "dependency " dependency) " is declared more than once"))
          ++ dependency_issues services path id (dependency ∷ unique) rest)

  unfoldable pub all_dependency_issues :
      OrdMap (ServiceConfig J) → OrdMap (ServiceConfig J) → List ConfigIssue
  all_dependency_issues services [] = []
  all_dependency_issues services ((id, service) ∷ rest) =
      dependency_issues services (depends_path id) id [] service.depends_on
      ++ all_dependency_issues services rest

  unfoldable pub validate_service_dependencies : OrdMap (ServiceConfig J) → List ConfigIssue
  validate_service_dependencies services =
      all_dependency_issues services services ++ cycle_issue (dependency_cycle services)
