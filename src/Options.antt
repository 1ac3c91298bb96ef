-- ===== src/Options.antt =====
-- cmd/draino/options.go: Validate, which checks the options and parses some, and
-- internal/kubernetes/limiter.go. sort.Strings and strconv.Atoi are parameters.
pub mod Valid
mod Tests
use Prim.Native.Char.{code}
use Prim.Native.String.{◌++◌ as append}
use draino.Prelude.{
  String, Bool, true, false, not, List, [], ◌∷◌, Option, none, some, if◌then◌else◌, ◌==◌, str_eq, ℤ,
  pos, ltb_ℤ, Dict, insert,
}
use draino.K8s.{Duration, second}
use draino.Conditions.{ParseLib, ParsedCondition, parse_conditions}

pub data OptionsError : Type 0 where
  no_config_name bad_max_not_ready_nodes bad_max_pending_pods : OptionsError
  no_condition bad_condition short_group_runner_period short_pod_warmup : OptionsError

pub data Checked (A : Type 0) : Type 0 where
  valid : A → Checked A
  invalid : OptionsError → Checked A

infixl 5 ◌>>=◌ ◌>>◌
abbrev pub ◌>>=◌ : {A B : Type 0} → Checked A → (A → Checked B) → Checked B
valid a >>= f = f a
invalid e >>= f = invalid e

abbrev pub ◌>>◌ : {B : Type 0} → Checked (Unit {0}) → Checked B → Checked B
m >> rest = m >>= λ _. rest

abbrev pub check : Bool → OptionsError → Checked (Unit {0})
check true e = valid tt
check false e = invalid e

abbrev pub from_option : {A : Type 0} → Option A → OptionsError → Checked A
from_option none e = invalid e
from_option (some a) e = valid a

-- The text without a last "%", and whether there was one.
unfoldable pub trim_percent : String → String × Bool
trim_percent String.[] = ("", false)
trim_percent (String.◌∷◌ c String.[]) =
    if code c == b'%' then ("", true) else (String.◌∷◌ c "", false)
trim_percent (String.◌∷◌ c (String.◌∷◌ d s)) =
    let rest = trim_percent (String.◌∷◌ d s) in (String.◌∷◌ c rest.0, rest.1)

unfoldable pub with_percent : (percent : Bool) → Option ℤ → Option (ℤ × Bool)
with_percent percent none = none
with_percent percent (some max) = some (max, percent)

-- ParseMaxInParameter: the number and whether it is a percentage; `none` is the error.
unfoldable pub parse_max_in_parameter : (atoi : String → Option ℤ) → String → Option (ℤ × Bool)
unfolding trim_percent with_percent
parse_max_in_parameter atoi param =
    with_percent (trim_percent param).1 (atoi (trim_percent param).0)

-- The maxima by their texts. The code keeps a function of each pair instead of the pair.
unfoldable pub parse_maxima :
    (atoi : String → Option ℤ) → List String → Dict (ℤ × Bool) → Option (Dict (ℤ × Bool))
parse_maxima atoi [] m = some m
parse_maxima atoi (p ∷ ps) m = elim (parse_max_in_parameter atoi p) [
  | none ↦ none
  | some max ↦ parse_maxima atoi ps (insert p max m)
]

pub record Options : Type 0 where
  pub config_name : String
  pub drain_buffer_config_map_name : String
  pub max_not_ready_nodes : List String
  pub max_pending_pods : List String
  pub conditions : List String
  pub group_runner_period : Duration
  pub pod_warmup_delay_extension : Duration

-- What Validate writes into the options.
pub record Settings (Rate : Type 0) : Type 0 where
  pub drain_buffer_config_map_name : String
  pub max_not_ready_nodes_functions : Dict (ℤ × Bool)
  pub max_pending_pods_functions : Dict (ℤ × Bool)
  pub supplied_conditions : List (ParsedCondition Rate)

abbrev pub is_empty : List String → Bool
is_empty [] = true
is_empty (c ∷ cs) = false

unfoldable pub config_map_name : Options → String
config_map_name o =
    if str_eq o.drain_buffer_config_map_name ""
    then append "draino-" (append o.config_name "-drain-buffer")
    else o.drain_buffer_config_map_name

unfoldable pub validate :
    {Rate : Type 0}
    → ParseLib Rate
    → (atoi : String → Option ℤ) → (sort : List String → List String) → Options
    → Checked (Settings Rate)
validate lib atoi sort o = do
  check (not (str_eq o.config_name "")) no_config_name
  nodes ← from_option (parse_maxima atoi o.max_not_ready_nodes []) bad_max_not_ready_nodes
  pods ← from_option (parse_maxima atoi o.max_pending_pods []) bad_max_pending_pods
  check (not (is_empty o.conditions)) no_condition
  conditions ← from_option (parse_conditions lib (sort o.conditions)) bad_condition
  check (not (ltb_ℤ o.group_runner_period (pos second))) short_group_runner_period
  check (not (ltb_ℤ o.pod_warmup_delay_extension (pos second))) short_pod_warmup
  valid (record {
    drain_buffer_config_map_name = config_map_name o;
    max_not_ready_nodes_functions = nodes;
    max_pending_pods_functions = pods;
    supplied_conditions = conditions;
  })
