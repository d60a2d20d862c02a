-- ===== src/Kube/Meta.antt =====
-- Of k8s.io/apimachinery: object metadata, conditions, errors of the API server, request names.
use azdo_kube_operator.Base.{ℕ, Bool, true, false, String, Option, List, Dict}

-- A value that the operator only passes on, by its serialised form.
abbrev pub Opaque : Type 0
Opaque = String

-- Nanoseconds since the epoch.
abbrev pub Time : Type 0
Time = ℕ

-- `metav1.OwnerReference`
pub record OwnerReference : Type 0 where
  pub api_version : String
  pub kind : String
  pub name : String
  pub uid : String
  pub controller : Bool

-- `metav1.ObjectMeta`
pub record ObjectMeta : Type 0 where
  pub name : String
  pub namespace : String
  pub uid : String
  pub labels : Dict String
  pub annotations : Dict String
  pub owner_references : List OwnerReference
  pub finalizers : List String
  pub deletion_timestamp : Option Time
  pub rest : Opaque

-- `types.NamespacedName`
pub record NamespacedName : Type 0 where
  pub name : String
  pub namespace : String

abbrev pub named : String → String → NamespacedName
named name namespace = record { name = name; namespace = namespace }

-- The errors of a call of the API server that the code tells apart.
pub data ApiError : Type 0 where
  not_found : ApiError
  conflict : ApiError
  other : String → ApiError

-- `apierrors.IsNotFound`
abbrev pub is_not_found : ApiError → Bool
is_not_found not_found = true
is_not_found conflict = false
is_not_found (other s) = false

-- `apierrors.IsConflict`
abbrev pub is_conflict : ApiError → Bool
is_conflict not_found = false
is_conflict conflict = true
is_conflict (other s) = false

-- What a call of the API server answers.
pub data Reply (A : Type 0) : Type 0 where
  reply : A → Reply A
  fail : ApiError → Reply A
