-- ===== src/DomainBlocklist/Liveness/Canary.antt =====
-- liveness/canary.rs: the controls that tell an honest resolver, and the name of a dead control. A
-- failed control stands for the message that the code prints.
pub mod Nonce
pub mod Controls
use holy_blocker.Shared.{
  ◌||◌, ◌-◌, ◌++◌, ◌==◌, ltb, ◌+◌, not, ◌&&◌, take, if◌then◌else◌, length, Option, Bool, Bytes,
  List, ℕ, none, some, true, false, [], ◌∷◌,
}
use holy_blocker.DomainBlocklist.Liveness.Lookup.{
  check, verdict_eq, Answers, Verdict, alive, dead, unknown,
}
use holy_blocker.NetShield.Keyword.{is_ascii_alphanumeric}
use holy_blocker.Shared.Texts.{split_dots}

abbrev pub max_named_hits : ℕ
max_named_hits = 20

abbrev pub max_label_octets : ℕ
max_label_octets = 63

abbrev pub max_name_octets : ℕ
max_name_octets = 255

pub record CanaryConfig : Type 0 where
  pub alive_controls : List Bytes
  pub dead_controls : List Bytes

pub data CanaryConfigError : Type 0 where
  empty_alive_controls empty_dead_controls : CanaryConfigError

pub data ConfigResult : Type 0 where
  config_ok : CanaryConfig → ConfigResult
  config_err : CanaryConfigError → ConfigResult

-- `CanaryConfig::new`
pub new_config : List Bytes → List Bytes → ConfigResult
new_config [] dead_controls = config_err empty_alive_controls
new_config (c ∷ alive_controls) [] = config_err empty_dead_controls
new_config (c ∷ alive_controls) (d ∷ dead_controls) =
    config_ok (record { alive_controls = c ∷ alive_controls; dead_controls = d ∷ dead_controls })

pub data NonceDomainError : Type 0 where
  empty_nonce empty_base_domain nonce_not_ldh base_domain_not_ldh : NonceDomainError
  label_too_long name_too_long : NonceDomainError

pub data NonceResult : Type 0 where
  nonce_ok : Bytes → NonceResult
  nonce_err : NonceDomainError → NonceResult

is_ldh_byte : ℕ → Bool
is_ldh_byte b = is_ascii_alphanumeric b || b == b'-'

all_bytes : (ℕ → Bool) → Bytes → Bool
all_bytes test [] = true
all_bytes test (b ∷ label) = test b && all_bytes test label

pub is_ldh_label : Bytes → Bool
is_ldh_label label = not (length label == 0) && all_bytes is_ldh_byte label

-- The loop over the labels of the base domain.
base_error : List Bytes → Option NonceDomainError
base_error [] = none
base_error (label ∷ labels) =
    if not (is_ldh_label label)
    then some base_domain_not_ldh
    else if ltb max_label_octets (length label)
    then some label_too_long
    else base_error labels

-- `map(|label| label.len() + 1).sum()`
pub octets_of : List Bytes → ℕ
octets_of [] = 0
octets_of (label ∷ labels) = length label + 1 + octets_of labels

-- The check of the whole name.
sized_name : Bytes → NonceResult
sized_name domain =
    if ltb max_name_octets (octets_of (split_dots domain) + 1)
    then nonce_err name_too_long
    else nonce_ok domain

pub nonce_dead_control : Bytes → Bytes → NonceResult
nonce_dead_control base_domain nonce =
    if length nonce == 0
    then nonce_err empty_nonce
    else if length base_domain == 0
    then nonce_err empty_base_domain
    else if not (is_ldh_label nonce)
    then nonce_err nonce_not_ldh
    else if ltb max_label_octets (length nonce)
    then nonce_err label_too_long
    else elim (base_error (split_dots base_domain)) [
      | some e ↦ nonce_err e
      | none ↦ sized_name (nonce ++ (b'.' ∷ base_domain))
    ]

-- A control with the verdict that was expected and the one that came.
pub record ControlFailure : Type 0 where
  pub domain : Bytes
  pub expected : Verdict
  pub got : Verdict

-- The named failures, and how many more there are.
pub data CanaryResult : Type 0 where
  passed : ℕ → CanaryResult
  failed_controls : List ControlFailure → ℕ → ℕ → CanaryResult

-- One of the two loops: the controls whose verdict is not the expected one.
pub mismatches : (Bytes → Verdict) → Verdict → List Bytes → List ControlFailure
mismatches verdict_of expected [] = []
mismatches verdict_of expected (domain ∷ domains) =
    let rest = mismatches verdict_of expected domains in
    let failure : ControlFailure = record {
      domain = domain;
      expected = expected;
      got = verdict_of domain;
    } in
    if verdict_eq (verdict_of domain) expected then rest else failure ∷ rest

canary_failures : (Bytes → Verdict) → CanaryConfig → List ControlFailure
canary_failures verdict_of config =
    mismatches verdict_of alive config.alive_controls
    ++ mismatches verdict_of dead config.dead_controls

report_failures : List ControlFailure → ℕ → CanaryResult
report_failures [] now = passed now
report_failures (f ∷ failures) now =
    failed_controls (take max_named_hits (f ∷ failures)) (length (f ∷ failures) - max_named_hits)
      now

pub canary_check : (Bytes → Answers) → CanaryConfig → ℕ → CanaryResult
canary_check resolver config now =
    report_failures (canary_failures (λ domain. check (resolver domain)) config) now
