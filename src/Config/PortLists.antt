-- ===== src/Config/PortLists.antt =====
-- src/adapters/config.rs: lists of ports that differ, and the claims that keep them so.
use aku_supervisor.Base.{
  ℕ, String, Bool, true, false, none, List, [], ◌∷◌, ◌++◌, ◌==◌, ◌≡◌, refl, ap, ◌∙◌, arith,
  if◌then◌else◌,
}
use mathlib.Core.List.{append_assoc}
use aku_supervisor.Base.Maps.{OrdMap}
use aku_supervisor.Config.Types.{ServiceConfig, ConfigIssue}
use aku_supervisor.Config.Checks.{report}
use aku_supervisor.Config.Validation.{Claims, has_port, owner_of}

abbrev pub ports_of : List (ℕ × String) → List ℕ
ports_of [] = []
ports_of ((port, owner) ∷ rest) = port ∷ ports_of rest

abbrev pub all_ports : {J : Type 0} → OrdMap (ServiceConfig J) → List ℕ
all_ports [] = []
all_ports ((id, service) ∷ rest) = service.ports ++ all_ports rest

abbrev pub DistinctPorts : List ℕ → Type 0
DistinctPorts [] = Unit
DistinctPorts (p ∷ ps) = (has_port p ps ≡ false) × DistinctPorts ps

-- Ports that differ and are not 0.
abbrev pub Apart : List ℕ → Type 0
Apart ps = DistinctPorts ps × (has_port 0 ps ≡ false)

pub has_port-append :
    (p q : ℕ) (ps : List ℕ) → has_port p (ps ++ (q ∷ [])) ≡ (if q == p then true else has_port p ps)
unfolding has_port
has_port-append p q [] = ground arith
has_port-append p q (x ∷ ps) = ground (arith, has_port-append p q ps)

pub append-DistinctPorts :
    (q : ℕ) (ps : List ℕ)
    → has_port q ps ≡ false
    → DistinctPorts ps
    → DistinctPorts (ps ++ (q ∷ []))
unfolding has_port
append-DistinctPorts q [] new d = (refl, tt)
append-DistinctPorts q (x ∷ ps) new d = (
  ground (arith, has_port-append x q ps, new, d.0),
  append-DistinctPorts q ps (ground (arith, new)) d.1,
)

pub append-Apart :
    (q : ℕ) (ps : List ℕ)
    → q == 0 ≡ false
    → has_port q ps ≡ false
    → Apart ps
    → Apart (ps ++ (q ∷ []))
append-Apart q ps nonzero new a =
    (append-DistinctPorts q ps new a.0, ground (arith, has_port-append 0 q ps, nonzero, a.1))

pub ports_of-append :
    (claimed : List (ℕ × String)) (port : ℕ) (owner : String)
    → ports_of (claimed ++ ((port, owner) ∷ [])) ≡ ports_of claimed ++ (port ∷ [])
ports_of-append [] port owner = refl
ports_of-append ((p, o) ∷ rest) port owner =
    ap (λ (ps : List ℕ). p ∷ ps) (ports_of-append rest port owner)

pub owner_of-has_port :
    (port : ℕ) (claimed : List (ℕ × String))
    → owner_of port claimed ≡ none
    → has_port port (ports_of claimed) ≡ false
unfolding owner_of has_port
owner_of-has_port port [] e = refl
owner_of-has_port port ((p, o) ∷ rest) e = ground (arith, e, owner_of-has_port port rest)

pub append-nil-both : {A : Type 0} (xs ys : List A) → xs ++ ys ≡ [] → (xs ≡ []) × (ys ≡ [])
append-nil-both [] ys e = (refl, e)
append-nil-both (x ∷ xs) ys e = absurd (cc e)

pub report-none : (b : Bool) (found : ConfigIssue) → report b found ≡ [] → b ≡ false
unfolding report
report-none true found e = absurd (cc e)
report-none false found e = refl

-- What claims without an issue have added.
pub record Clean (ports : List ℕ) (c c' : Claims) : Type 0 where
  pub before : c.issues ≡ []
  pub claimed : ports_of c'.claimed_ports ≡ ports_of c.claimed_ports ++ ports
  pub apart : Apart (ports_of c.claimed_ports) → Apart (ports_of c'.claimed_ports)

pub Clean-trans :
    (ps qs : List ℕ) (c c' c'' : Claims) → Clean ps c c' → Clean qs c' c'' → Clean (ps ++ qs) c c''
Clean-trans ps qs c c' c'' g h = record {
  before = g.before;
  claimed =
      h.claimed
      ∙ ap (λ (xs : List ℕ). xs ++ qs) g.claimed
      ∙ append_assoc (ports_of c.claimed_ports) ps qs;
  apart = λ a. h.apart (g.apart a);
}
