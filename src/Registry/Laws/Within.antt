-- ===== src/Registry/Laws/Within.antt =====
-- What an operation leaves alone, whether it returns or fails, and the rules to derive it.
use aku_supervisor.Base.{
  Bool, true, false, Result, ok, err, pure, raise, lift, get, guard, continue, ◌>>=◌, if◌then◌else◌,
  ◌≡◌, refl, ◌∙◌, not,
}
use aku_supervisor.Health.{HealthSnapshot}
use aku_supervisor.Ports.{Backend}
use aku_supervisor.Runtime.{RuntimeState, Run}
use aku_supervisor.Runtime.Outcomes.{ServiceRuntimeError}
use aku_supervisor.Registry.Supervision.{SupervisionState}
use aku_supervisor.Registry.Types.{lock_poisoned}
use aku_supervisor.Runtime.Consistency.{IsConsistent}
use aku_supervisor.Registry.Entry.{
  Op, Entry, Error, lock_mutation, lock_control, lock_health, lock_supervision, set_supervision,
  set_health, machine, on_runtime,
}

module _ (B : Backend) where
  -- The registration and the locks stay; a consistent runtime stays consistent; and unless `user`
  -- holds, so does the policy.
  pub record Stays (user : Bool) (x y : Entry B) : Type 0 where
    pub registration : y.registration ≡ x.registration
    pub locks : y.poisoned ≡ x.poisoned
    pub consistent : IsConsistent x.runtime → IsConsistent y.runtime
    pub policy : user ≡ false → y.control.policy ≡ x.control.policy

  pub Stays-refl : (user : Bool) (x : Entry B) → Stays user x x
  Stays-refl user x = record {
    registration = refl;
    locks = refl;
    consistent = λ h. h;
    policy = λ _. refl;
  }

  pub Stays-trans :
      (user : Bool) (x y z : Entry B) → Stays user x y → Stays user y z → Stays user x z
  Stays-trans user x y z p q = record {
    registration = q.registration ∙ p.registration;
    locks = q.locks ∙ p.locks;
    consistent = λ h. q.consistent (p.consistent h);
    policy = λ n. q.policy n ∙ p.policy n;
  }

  pub record Within (user : Bool) {A : Type 0} (m : Op B A) : Type 0 where
    pub at : (s : Entry B × B.World) → Stays user s.0 (m s).0.0

  pub Within-pure : (user : Bool) {A : Type 0} (a : A) → Within user (pure a)
  Within-pure user a = record { at = λ s. Stays-refl user s.0 }

  pub Within-raise : (user : Bool) {A : Type 0} (e : Error B) → Within user {A = A} (raise e)
  Within-raise user e = record { at = λ s. Stays-refl user s.0 }

  pub Within-lift : (user : Bool) {A : Type 0} (r : Result (Error B) A) → Within user (lift r)
  Within-lift user r = record { at = λ s. Stays-refl user s.0 }

  Stays-continue :
      (user : Bool) {A C : Type 0} (x : Entry B) (r : Result (Error B) A) (f : A → Op B C)
      (s : Entry B × B.World)
      → ((a : A) → Within user (f a))
      → Stays user x s.0
      → Stays user x (continue r f s).0.0
  Stays-continue user x (ok a) f s hf h = Stays-trans user x s.0 (f a s).0.0 h ((hf a).at s)
  Stays-continue user x (err e) f s hf h = h

  pub Within-bind :
      (user : Bool) {A C : Type 0} (m : Op B A) (f : A → Op B C)
      → Within user m
      → ((a : A) → Within user (f a))
      → Within user (m >>= f)
  Within-bind user m f hm hf = record {
    at = λ s. Stays-continue user s.0 (m s).1 f (m s).0 hf (hm.at s);
  }

  pub Within-if :
      (user : Bool) {A : Type 0} (b : Bool) (m n : Op B A)
      → Within user m
      → Within user n
      → Within user (if b then m else n)
  Within-if user true m n hm hn = hm
  Within-if user false m n hm hn = hn

  -- A step that changes neither the registration, nor the locks, the runtime or the policy.
  pub Within-step :
      (user : Bool) {A : Type 0} (m : Op B A)
      → ((s : Entry B × B.World)
          → ((m s).0.0.registration ≡ s.0.registration)
            × ((m s).0.0.poisoned ≡ s.0.poisoned)
            × ((m s).0.0.runtime ≡ s.0.runtime)
            × ((m s).0.0.control.policy ≡ s.0.control.policy))
      → Within user m
  Within-step user m h = record {
    at = λ s. record {
      registration = (h s).0;
      locks = (h s).1;
      consistent = λ c. rw (h s).2 c;
      policy = λ _. (h s).3;
    };
  }

  Within-guard : (user b : Bool) (e : Error B) → Within user (guard b e)
  Within-guard user true e = record { at = λ s. Stays-refl user s.0 }
  Within-guard user false e = record { at = λ s. Stays-refl user s.0 }

  pub Within-get : (user : Bool) → Within user get
  Within-get user = record { at = λ s. Stays-refl user s.0 }

  pub Within-lock_mutation : (user : Bool) → Within user (lock_mutation B)
  Within-lock_mutation user = record {
    at = λ s. (Within-guard user (not s.0.poisoned.mutation) lock_poisoned).at s;
  }

  pub Within-lock_control : (user : Bool) → Within user (lock_control B)
  Within-lock_control user = record {
    at = λ s. (Within-guard user (not s.0.poisoned.control) lock_poisoned).at s;
  }

  pub Within-lock_health : (user : Bool) → Within user (lock_health B)
  Within-lock_health user = record {
    at = λ s. (Within-guard user (not s.0.poisoned.health) lock_poisoned).at s;
  }

  pub Within-lock_supervision : (user : Bool) → Within user (lock_supervision B)
  Within-lock_supervision user = record {
    at = λ s. (Within-guard user (not s.0.poisoned.supervision) lock_poisoned).at s;
  }

  pub Within-guarded : (user b : Bool) (e : Error B) → Within user (guard b e)
  Within-guarded user b e = Within-guard user b e

  pub Within-machine :
      (user : Bool) {A : Type 0} (f : B.World → B.World × A) → Within user (machine B f)
  Within-machine user f = Within-step user (machine B f) (λ s. (refl, refl, refl, refl))

  pub Within-set_supervision :
      (user : Bool) (f : SupervisionState → SupervisionState) → Within user (set_supervision B f)
  Within-set_supervision user f =
      Within-step user (set_supervision B f) (λ s. (refl, refl, refl, refl))

  pub Within-set_health : (user : Bool) (h : HealthSnapshot B.Json) → Within user (set_health B h)
  Within-set_health user h = Within-step user (set_health B h) (λ s. (refl, refl, refl, refl))

  pub Within-on_runtime :
      (user : Bool) {E A : Type 0} (f : ServiceRuntimeError E → Error B)
      (m : Run B.Process B.World E A)
      → ((r : RuntimeState B.Process) (w : B.World) → IsConsistent r → IsConsistent (m (r, w)).0.0)
      → Within user (on_runtime B f m)
  Within-on_runtime user f m h = record {
    at = λ s. record {
      registration = refl;
      locks = refl;
      consistent = h s.0.runtime s.1;
      policy = λ _. refl;
    };
  }

pub ruleset within_rules = (
  Within-pure, Within-raise, Within-lift, Within-bind, Within-if, Within-get, Within-lock_mutation,
  Within-lock_control, Within-lock_health, Within-lock_supervision, Within-guarded, Within-machine,
  Within-set_supervision, Within-set_health,
)
