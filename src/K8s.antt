-- ===== src/K8s.antt =====
-- The Kubernetes API objects that the program reads and writes (packages k8s.io/api/core/v1 and
-- policy/v1), with the fields that the modelled code uses. A nil map is an empty dictionary, which
-- Go's reads do not tell apart. A time is in nanoseconds from Go's zero time; a `*metav1.Time` is
-- an option. A duration is in nanoseconds.
use draino.Prelude.{ℕ, String, Bool, List, Option, Dict, ℤ, pos}

abbrev pub Time : Type 0
Time = ℤ

abbrev pub Duration : Type 0
Duration = ℤ

-- Go's time.Time{}.
abbrev pub time_zero : Time
time_zero = pos 0

abbrev pub second : ℕ
second = 1_000_000_000

abbrev pub minute : ℕ
minute = 60_000_000_000

pub record Taint : Type 0 where
  pub key : String
  pub value : String
  pub effect : String
  pub time_added : Option Time

-- A condition of a node or of a pod.
pub record Condition : Type 0 where
  pub kind : String
  pub status : String
  pub last_heartbeat_time : Time
  pub last_transition_time : Time
  pub reason : String
  pub message : String

pub record Node : Type 0 where
  pub name : String
  pub labels : Dict String
  pub annotations : Dict String
  pub taints : List Taint
  pub conditions : List Condition
  pub deletion_timestamp : Option Time

pub record OwnerReference : Type 0 where
  pub kind : String
  pub name : String
  pub api_version : String
  pub controller : Bool

pub record Pod : Type 0 where
  pub name : String
  pub namespace : String
  pub uid : String
  pub annotations : Dict String
  pub owner_references : List OwnerReference
  pub node_name : String
  pub phase : String
  pub empty_dir_volumes : List Bool
  pub conditions : List Condition
