-- ===== src/Plan/PlannerConfig/Validation.antt =====
-- Which configurations pkg/plan/config.go accepts.
use attacknet.Base.{
  ◌≡◌, ◌↔◌, ◌⊎◌, inl, inr, refl, Bool, true, false, ◌||◌, List, [], ◌∷◌, All, any, String, Outcome,
  ok, err, require, crash, ◌>>◌, arith, Bool-cases,
}
use attacknet.Base.Text.{str_eq, eq_iff}
use attacknet.Plan.Network.Nodes.{ClientVersion}
use attacknet.Plan.Suite.Kinds.{
  TargetingSpec, target_matching_node, target_matching_client, other_targeting, AttackSize,
  other_size, FaultType, fault_packet_loss, other_fault, fault_types, targeting_specs, attack_sizes,
  attack_one, attack_all, attack_minority, attack_superminority, attack_majority,
  attack_supermajority, fault_clock_skew, fault_container_restart, fault_io_latency,
  fault_network_latency,
}
use attacknet.Plan.PlannerConfig.{
  PlannerConfig, all_supported, is_target_execution_client, is_target_consensus_client,
  validate_planner_fault_configuration,
}

-- The declared fault types, but for packet loss.
abbrev pub IsAccepted : FaultType → Type 0
IsAccepted fault_packet_loss = ⊥
IsAccepted (other_fault _) = ⊥
IsAccepted _ = Unit

abbrev pub IsDimension : TargetingSpec → Type 0
IsDimension (other_targeting _) = ⊥
IsDimension _ = Unit

abbrev pub IsSize : AttackSize → Type 0
IsSize (other_size _) = ⊥
IsSize _ = Unit

-- A client of the name is in the list.
abbrev pub IsListed : String → List ClientVersion → Type 0
IsListed name [] = ⊥
IsListed name (c ∷ rest) = (c.name ≡ name) ⊎ IsListed name rest

-- The fault type, the dimensions and the target are ones that the planner knows.
abbrev pub IsValid : PlannerConfig → Type 0
IsValid c =
    IsAccepted c.fault_config.fault_type
    × All IsDimension c.fault_config.targeting_dimensions
    × All IsSize c.fault_config.attack_size_dimensions
    × ((c.fault_config.target_client ≡ "all")
        ⊎ (IsListed c.fault_config.target_client c.execution_clients
            ⊎ IsListed c.fault_config.target_client c.consensus_clients))

fault_types_iff : (f : FaultType) → (fault_types f ≡ true) ↔ IsAccepted f
unfolding fault_types
fault_types_iff fault_clock_skew = (λ _. tt, λ _. refl)
fault_types_iff fault_container_restart = (λ _. tt, λ _. refl)
fault_types_iff fault_io_latency = (λ _. tt, λ _. refl)
fault_types_iff fault_network_latency = (λ _. tt, λ _. refl)
fault_types_iff fault_packet_loss = (λ e. cc, λ h. absurd h)
fault_types_iff (other_fault _) = (λ e. cc, λ h. absurd h)

targeting_specs_iff : (s : TargetingSpec) → (targeting_specs s ≡ true) ↔ IsDimension s
unfolding targeting_specs
targeting_specs_iff target_matching_node = (λ _. tt, λ _. refl)
targeting_specs_iff target_matching_client = (λ _. tt, λ _. refl)
targeting_specs_iff (other_targeting _) = (λ e. cc, λ h. absurd h)

attack_sizes_iff : (s : AttackSize) → (attack_sizes s ≡ true) ↔ IsSize s
unfolding attack_sizes
attack_sizes_iff attack_one = (λ _. tt, λ _. refl)
attack_sizes_iff attack_all = (λ _. tt, λ _. refl)
attack_sizes_iff attack_minority = (λ _. tt, λ _. refl)
attack_sizes_iff attack_superminority = (λ _. tt, λ _. refl)
attack_sizes_iff attack_majority = (λ _. tt, λ _. refl)
attack_sizes_iff attack_supermajority = (λ _. tt, λ _. refl)
attack_sizes_iff (other_size _) = (λ e. cc, λ h. absurd h)

IsListed-if :
    (name : String) (clients : List ClientVersion)
    → any (λ c. str_eq c.name name) clients ≡ true
    → IsListed name clients
IsListed-if name [] e = cc
IsListed-if name (c ∷ rest) e = elim (Bool-cases (str_eq c.name name)) [
  | inl f ↦ inl ((eq_iff c.name name).0 f)
  | inr f ↦ inr (IsListed-if name rest (rw f at e))
]

IsListed-only_if :
    (name : String) (clients : List ClientVersion)
    → IsListed name clients
    → any (λ c. str_eq c.name name) clients ≡ true
IsListed-only_if name [] h = absurd h
IsListed-only_if name (c ∷ rest) (inl e) = rw ((eq_iff c.name name).1 e) refl
IsListed-only_if name (c ∷ rest) (inr h) = ground (arith, IsListed-only_if name rest h)

-- A check and what follows it succeed together.
seq_iff :
    (first then : Outcome (Unit {0}))
    → ((first >> then) ≡ ok tt) ↔ ((first ≡ ok tt) × (then ≡ ok tt))
seq_iff (ok tt) then = (λ e. (refl, e), λ p. p.1)
seq_iff (err _) then = (λ e. cc, λ p. cc (p.0))
seq_iff (crash _) then = (λ e. cc, λ p. cc (p.0))

require_iff : (b : Bool) (message : String) → (require b message ≡ ok tt) ↔ (b ≡ true)
require_iff true message = (λ _. refl, λ _. refl)
require_iff false message = (λ e. cc, λ e. cc)

all_supported_iff :
    {A : Type 0} (supported : A → Bool) (P : A → Type 0) (message : String)
    → ((x : A) → (supported x ≡ true) ↔ P x)
    → (xs : List A) → (all_supported supported message xs ≡ ok tt) ↔ All P xs
unfolding all_supported
all_supported_iff supported P message h [] = (λ _. tt, λ _. refl)
all_supported_iff supported P message h (x ∷ rest) =
    let both = seq_iff (require (supported x) message) (all_supported supported message rest) in
    let here = require_iff (supported x) message in
    let (to, from) = all_supported_iff supported P message h rest in
    (
      λ e. ((h x).0 (here.0 (both.0 e).0), to (both.0 e).1),
      λ p. both.1 (here.1 ((h x).1 p.0), from p.1),
    )

or_iff : (a b d : Bool) → ((a || b || d) ≡ true) ↔ ((a ≡ true) ⊎ ((b ≡ true) ⊎ (d ≡ true)))
or_iff true b d = (λ _. inl refl, λ _. refl)
or_iff false true d = (λ _. inr (inl refl), λ _. refl)
or_iff false false d =
    (λ e. inr (inr e), λ s. elim s [ inl e ↦ cc | inr (inl e) ↦ cc | inr (inr e) ↦ e ])

-- The target of the faults.
target_iff :
    (c : PlannerConfig)
    → ((str_eq c.fault_config.target_client "all"
          || is_target_execution_client c
          || is_target_consensus_client c)
        ≡ true)
      ↔ ((c.fault_config.target_client ≡ "all")
          ⊎ (IsListed c.fault_config.target_client c.execution_clients
              ⊎ IsListed c.fault_config.target_client c.consensus_clients))
unfolding is_target_execution_client is_target_consensus_client
target_iff c =
    let name = c.fault_config.target_client in
    let execs = c.execution_clients in
    let conss = c.consensus_clients in
    let (to, from) =
      or_iff (str_eq name "all") (any (λ v. str_eq v.name name) execs)
        (any (λ v. str_eq v.name name) conss) in
    (
      λ e. elim (to e) [
        | inl f ↦ inl ((eq_iff name "all").0 f)
        | inr (inl f) ↦ inr (inl (IsListed-if name execs f))
        | inr (inr f) ↦ inr (inr (IsListed-if name conss f))
      ],
      λ s. from (elim s [
        | inl f ↦ inl ((eq_iff name "all").1 f)
        | inr (inl f) ↦ inr (inl (IsListed-only_if name execs f))
        | inr (inr f) ↦ inr (inr (IsListed-only_if name conss f))
      ]),
    )

-- A configuration passes the validation exactly if its fault type is a declared one other than
-- packet loss, its targeting dimensions and attack sizes are declared ones, and its target is "all"
-- or a client that it lists.
pub validate_iff :
    (c : PlannerConfig) → (validate_planner_fault_configuration c ≡ ok tt) ↔ IsValid c
unfolding validate_planner_fault_configuration
validate_iff c = (
  λ e.
      let (e₁, f₁) = (seq_iff (require (fault_types c.fault_config.fault_type) _) _).0 e in
      let (e₂, f₂) =
        (seq_iff (all_supported targeting_specs _ c.fault_config.targeting_dimensions) _).0 f₁ in
      let (e₃, f₃) =
        (seq_iff (all_supported attack_sizes _ c.fault_config.attack_size_dimensions) _).0 f₂ in
      (
        (fault_types_iff c.fault_config.fault_type).0
            ((require_iff (fault_types c.fault_config.fault_type) _).0 e₁),
        (all_supported_iff targeting_specs IsDimension _ targeting_specs_iff
              c.fault_config.targeting_dimensions).0
            e₂,
        (all_supported_iff attack_sizes IsSize _ attack_sizes_iff
              c.fault_config.attack_size_dimensions).0
            e₃,
        (target_iff c).0 ((require_iff _ _).0 f₃),
      ),
  λ (v, d, s, t). (seq_iff _ _).1 (
    (require_iff (fault_types c.fault_config.fault_type) _).1
        ((fault_types_iff c.fault_config.fault_type).1 v),
    (seq_iff _ _).1 (
      (all_supported_iff targeting_specs IsDimension _ targeting_specs_iff
            c.fault_config.targeting_dimensions).1
          d,
      (seq_iff _ _).1 (
        (all_supported_iff attack_sizes IsSize _ attack_sizes_iff
              c.fault_config.attack_size_dimensions).1
            s,
        (require_iff _ _).1 ((target_iff c).1 t),
      ),
    ),
  ),
)
