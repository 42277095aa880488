-- ===== src/Planning/Shutdown.antt =====
-- src/application/dependency_control.rs: `stable_shutdown_order`. `fuel` bounds the rounds of its loop.
mod Open
mod Rounds
mod Loop
mod Setup
mod Blank
mod Start
mod Counting
mod Ready
mod Ordered
pub mod Planned
use aku_supervisor.Base.{
  ℕ, zero, suc, ◌+◌, ◌-◌, String, Bool, true, false, Option, none, some, List, [], ◌∷◌, ◌++◌, ◌==◌,
  leb, Result, ok, err, and_then, map_err, map_ok, length, if◌then◌else◌,
}
use aku_supervisor.Base.Maps.{OrdMap, lookup, insert, update}
use aku_supervisor.Control.{ControlError, internal_error, missing_service}
use aku_supervisor.Registry.Types.{ServiceSnapshot}

-- The failures, each with the error that the code returns for it. `underflow` is the panic of a count
-- below 0, and `unfinished` the model's own: the fuel has run out.
pub data ShutdownError : Type 0 where
  not_found : String → ShutdownError
  cycle underflow unfinished : ShutdownError

abbrev pub shutdown_control_error : ShutdownError → ControlError
shutdown_control_error (not_found id) = missing_service id
shutdown_control_error cycle =
    internal_error "service dependency cycle reached while planning shutdown"
shutdown_control_error underflow = internal_error "underflow"
shutdown_control_error unfinished = internal_error "unfinished"

-- `remaining_dependents` and `dependencies`.
pub record Graph : Type 0 where
  pub counts : OrdMap ℕ
  pub dependencies : OrdMap (List String)

abbrev pub note :
    String → String → Graph → Option ℕ → Option (List String) → Result ShutdownError Graph
note id dependency g none listed = err (not_found dependency)
note id dependency g (some count) none = err (not_found id)
note id dependency g (some count) (some listed) = ok (record {
  counts = update dependency (λ n. n + 1) g.counts;
  dependencies = update id (λ ds. ds ++ (dependency ∷ [])) g.dependencies;
})

unfoldable pub note_all : String → List String → Graph → Result ShutdownError Graph
note_all id [] g = ok g
note_all id (d ∷ ds) g =
    and_then (note id d g (lookup d g.counts) (lookup id g.dependencies)) (note_all id ds)

abbrev pub is_zero : Option ℕ → Bool
is_zero none = false
is_zero (some n) = n == 0

abbrev pub no_graph : Graph
no_graph = record { counts = []; dependencies = [] }

module _ {J : Type 0} where
  -- The collections keyed by the snapshots' ids.
  unfoldable pub positions_from : ℕ → OrdMap ℕ → List (ServiceSnapshot J) → OrdMap ℕ
  positions_from position m [] = m
  positions_from position m (s ∷ ss) = positions_from (position + 1) (insert s.id position m) ss

  unfoldable pub empty_graph : Graph → List (ServiceSnapshot J) → Graph
  empty_graph g [] = g
  empty_graph g (s ∷ ss) =
      empty_graph
        (record { counts = insert s.id 0 g.counts; dependencies = insert s.id [] g.dependencies })
        ss

  unfoldable pub note_services : List (ServiceSnapshot J) → Graph → Result ShutdownError Graph
  note_services [] g = ok g
  note_services (s ∷ ss) g = and_then (note_all s.id s.depends_on g) (note_services ss)

  unfoldable pub first_ready : OrdMap ℕ → List (ServiceSnapshot J) → List String
  first_ready counts [] = []
  first_ready counts (s ∷ ss) =
      let rest = first_ready counts ss in if is_zero (lookup s.id counts) then s.id ∷ rest else rest

-- `positions.get(id).copied().unwrap_or(usize::MAX)`; below, `before` is the comparison of keys.
abbrev pub before : Option ℕ → Option ℕ → Bool
before none none = true
before none (some q) = false
before (some p) none = true
before (some p) (some q) = leb p q

-- The stable sort by position.
unfoldable pub place : OrdMap ℕ → String → List String → List String
place positions id [] = id ∷ []
place positions id (other ∷ rest) =
    let later = place positions id rest in
    if before (lookup id positions) (lookup other positions)
    then id ∷ other ∷ rest
    else other ∷ later

unfoldable pub sort_by_position : OrdMap ℕ → List String → List String
sort_by_position positions [] = []
sort_by_position positions (id ∷ ids) = place positions id (sort_by_position positions ids)

pub record Round : Type 0 where
  pub counts : OrdMap ℕ
  pub ready : List String

abbrev pub lower : String → Round → Option ℕ → Result ShutdownError Round
lower d r none = err (not_found d)
lower d r (some zero) = err underflow
lower d r (some (suc n)) = ok (record {
  counts = update d (λ count. count - 1) r.counts;
  ready = if n == 0 then r.ready ++ (d ∷ []) else r.ready;
})

-- The loop over the dependencies of the service that was taken.
unfoldable pub lower_all : List String → Round → Result ShutdownError Round
lower_all [] r = ok r
lower_all (d ∷ ds) r = and_then (lower d r (lookup d r.counts)) (lower_all ds)

abbrev pub taken : String → Option (List String) → Round → Result ShutdownError Round
taken id none r = err (not_found id)
taken id (some ds) r = lower_all ds r

-- The loop while services are ready; `ready` is sorted when a round begins.
unfoldable pub shut :
    ℕ
    → OrdMap ℕ
    → OrdMap (List String)
    → List String
    → OrdMap ℕ
    → List String
    → Result ShutdownError (List String)
shut fuel positions dependencies ordered counts [] = ok ordered
shut zero positions dependencies ordered counts (id ∷ ready) = err unfinished
shut (suc fuel) positions dependencies ordered counts (id ∷ ready) =
    and_then (taken id (lookup id dependencies) (record { counts = counts; ready = ready })) (λ r.
      shut fuel positions dependencies (ordered ++ (id ∷ [])) r.counts
        (sort_by_position positions r.ready))

abbrev pub complete : ℕ → List String → Result ShutdownError (List String)
complete services ordered = if length ordered == services then ok ordered else err cycle

module _ {J : Type 0} where
  abbrev pub shut_graph : List (ServiceSnapshot J) → Graph → Result ShutdownError (List String)
  shut_graph snapshots g =
      let positions = positions_from 0 [] snapshots in
      and_then
        (shut (suc (length g.counts)) positions g.dependencies [] g.counts
          (sort_by_position positions (first_ready g.counts snapshots)))
        (complete (length snapshots))

  unfoldable pub plan_shutdown : List (ServiceSnapshot J) → Result ShutdownError (List String)
  plan_shutdown snapshots =
      and_then (note_services snapshots (empty_graph no_graph snapshots)) (shut_graph snapshots)

  unfoldable pub stable_shutdown_order :
      List (ServiceSnapshot J) → Result ControlError (List String)
  stable_shutdown_order snapshots = map_err shutdown_control_error (plan_shutdown snapshots)
