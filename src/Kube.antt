-- ===== src/Kube.antt =====
-- The shapes of the Kubernetes objects that the program reads and writes (metav1, corev1, batchv1,
-- unstructured), with the fields that it uses.
use backup_maker_controller.Prelude.{ℕ, String, Option, none, List, []}
use backup_maker_controller.Prelude.{Dict}

pub record GroupVersionKind : Type 0 where
  pub group : String
  pub version : String
  pub kind : String

pub record TypeMeta : Type 0 where
  pub api_version : String
  pub kind : String

pub record OwnerReference : Type 0 where
  pub api_version : String
  pub kind : String
  pub name : String
  pub uid : String

pub record ObjectMeta : Type 0 where
  pub name : String
  pub generate_name : String
  pub namespace : String
  pub uid : String
  pub generation : ℕ
  pub labels : Dict String
  pub annotations : Dict String
  pub owner_references : List OwnerReference

abbrev pub empty_meta : ObjectMeta
empty_meta = record {
  name = "";
  generate_name = "";
  namespace = "";
  uid = "";
  generation = 0;
  labels = [];
  annotations = [];
  owner_references = [];
}

abbrev pub empty_type : TypeMeta
empty_type = record { api_version = ""; kind = "" }

-- metav1.Condition; a time is a number of nanoseconds.
pub record Condition : Type 0 where
  pub condition_type : String
  pub status : String
  pub observed_generation : ℕ
  pub last_transition_time : ℕ
  pub reason : String
  pub message : String

-- corev1.Secret; none is the nil map.
pub record Secret : Type 0 where
  pub meta : ObjectMeta
  pub contents : Option (Dict String)
  pub string_data : Option (Dict String)

abbrev pub empty_secret : Secret
empty_secret = record { meta = empty_meta; contents = none; string_data = none }

-- What stands under the key `metadata` of an unstructured object.
pub data Metadata : Type 0 where
  missing : Metadata
  mapping : ObjectMeta → Metadata
  not_a_mapping : Metadata

-- unstructured.Unstructured: its `apiVersion` and `kind`, its metadata, and the rest as text.
pub record Unstructured : Type 0 where
  pub type_meta : TypeMeta
  pub metadata : Metadata
  pub body : String

-- What the accessors of an unstructured object (`GetName`, `GetLabels`, …) read.
unfoldable pub meta_of : Metadata → ObjectMeta
meta_of missing = empty_meta
meta_of (mapping m) = m
meta_of not_a_mapping = empty_meta

-- types.NamespacedName, as the request of a reconciler holds it.
pub record Request : Type 0 where
  pub namespace : String
  pub name : String

-- ctrl.Result, in seconds; 0 asks for no requeue.
pub record Result : Type 0 where
  pub requeue_after : ℕ

-- The pods that a `kind: Job` counts in its status.
pub record Job : Type 0 where
  pub type_meta : TypeMeta
  pub meta : ObjectMeta
  pub active : ℕ
  pub failed : ℕ
