-- ===== src/Domain/Actor.antt =====
-- src/domain/control.rs: the authenticated principals, and how they are written to the journal.
use aku_supervisor.Base.{
  String, Bool, true, false, ◌&&◌, Option, none, some, Result, ok, err, if◌then◌else◌, str_eq,
  str_eq_iff, ◌≡◌, refl, arith,
}

pub data Actor : Type 0 where
  user_cli user_ui agent codex recovery : Actor

pub Actor-discrete : Discrete Actor
Actor-discrete = hlevel

-- The derived equality.
abbrev pub same_actor : Actor → Actor → Bool
same_actor Actor.user_cli Actor.user_cli = true
same_actor Actor.user_ui Actor.user_ui = true
same_actor Actor.agent Actor.agent = true
same_actor Actor.codex Actor.codex = true
same_actor Actor.recovery Actor.recovery = true
same_actor _ _ = false

abbrev pub is_user : Actor → Bool
is_user Actor.user_cli = true
is_user Actor.user_ui = true
is_user _ = false

abbrev pub is_agent : Actor → Bool
is_agent Actor.agent = true
is_agent Actor.codex = true
is_agent _ = false

-- `actor == Actor::Recovery`
abbrev pub is_recovery : Actor → Bool
is_recovery Actor.recovery = true
is_recovery _ = false

unfoldable pub identity : Actor → String × String
identity Actor.user_cli = ("user", "cli")
identity Actor.user_ui = ("user", "ui")
identity Actor.agent = ("agent", "generic")
identity Actor.codex = ("agent", "codex")
identity Actor.recovery = ("recovery", "supervisor")

-- What serde reads before the names are looked up.
pub data ActorWire : Type 0 where
  legacy : String → ActorWire
  identified : String → String → ActorWire

-- `Serialize for Actor`: always the structured form.
unfoldable pub serialize : Actor → ActorWire
unfolding identity
serialize actor = let (actor_type, actor_id) = identity actor in identified actor_type actor_id

pub data ActorError : Type 0 where
  unknown_identity : ActorError

legacy_actor : String → Option Actor
legacy_actor name =
    if str_eq name "user_cli"
    then some Actor.user_cli
    else (if str_eq name "user_ui"
        then some Actor.user_ui
        else (if str_eq name "agent"
            then some Actor.agent
            else (if str_eq name "codex"
                then some Actor.codex
                else (if str_eq name "recovery" then some Actor.recovery else none))))

identified_actor : String → String → Option Actor
identified_actor actor_type actor_id =
    if str_eq actor_type "user" && str_eq actor_id "cli"
    then some Actor.user_cli
    else (if str_eq actor_type "user" && str_eq actor_id "ui"
        then some Actor.user_ui
        else (if str_eq actor_type "agent" && str_eq actor_id "generic"
            then some Actor.agent
            else (if str_eq actor_type "agent" && str_eq actor_id "codex"
                then some Actor.codex
                else (if str_eq actor_type "recovery" && str_eq actor_id "supervisor"
                    then some Actor.recovery
                    else none))))

known : Option Actor → Result ActorError Actor
known none = err unknown_identity
known (some actor) = ok actor

-- `Deserialize for Actor`.
unfoldable pub deserialize : ActorWire → Result ActorError Actor
unfolding legacy_actor identified_actor known str_eq
deserialize (legacy name) = known (legacy_actor name)
deserialize (identified actor_type actor_id) = known (identified_actor actor_type actor_id)

-- Every actor is read back from the form in which it is written.
pub deserialize-serialize : (actor : Actor) → deserialize (serialize actor) ≡ ok actor
unfolding deserialize serialize
deserialize-serialize Actor.user_cli = refl
deserialize-serialize _ = refl

-- A structured identity is accepted only if it is the one that the resulting actor is written as.
pub serialize-deserialize :
    (actor_type actor_id : String) (actor : Actor)
    → deserialize (identified actor_type actor_id) ≡ ok actor
    → serialize actor ≡ identified actor_type actor_id
unfolding serialize deserialize
serialize-deserialize actor_type actor_id actor h = ground (
  arith,
  str_eq_iff actor_type "user",
  str_eq_iff actor_type "agent",
  str_eq_iff actor_type "recovery",
  str_eq_iff actor_id "cli",
  str_eq_iff actor_id "ui",
  str_eq_iff actor_id "generic",
  str_eq_iff actor_id "codex",
  str_eq_iff actor_id "supervisor",
)
