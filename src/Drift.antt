-- ===== src/Drift.antt =====
-- internal/drift: the comparison of a live resource with its manifest in Git. A value that is no object
-- is the text that %v prints of it; what %v prints of an object, and the parsing of a manifest, are
-- parameters. The result of a drift has no time, and the loop over the kinds is left out.
pub mod Agreement
mod Tests
use aotanami.SecurityPolicy.Model.{err, ok, Attempt}
use aotanami.Prelude.{
  contains, to_lower, quote, some, ◌∷◌, Bool, [], text_eq, ◌++◌, any, none, codes, List, Option,
  if◌then◌else◌, has_prefix, Text,
}

-- map[string]interface{}, its entries in the order in which the range loop reads them.
mutual
  pub data Value : Type 0 where
    scalar : Text → Value
    object : Fields → Value

  pub data Fields : Type 0 where
    no_fields : Fields
    field : Text → Value → Fields → Fields

-- Type
pub data DriftType : Type 0 where
  type_added type_modified type_deleted : DriftType

-- Result
pub record DriftResult : Type 0 where
  pub type : DriftType
  pub resource_kind : Text
  pub resource_name : Text
  pub namespace : Text
  pub field_path : Text
  pub live_value : Text
  pub desired_value : Text
  pub severity : Text
  pub message : Text

-- ClassifySeverity
pub classify_severity : Text → Text → Text
classify_severity kind field_path =
    if any (text_eq field_path) (
      codes ".spec.containers[*].securityContext"
      ∷ codes ".spec.securityContext"
      ∷ codes ".spec.serviceAccountName"
      ∷ codes ".spec.hostNetwork"
      ∷ codes ".spec.hostPID"
      ∷ codes ".spec.hostIPC"
      ∷ [])
    then codes "high"
    else if any (text_eq kind)
        (codes "ClusterRole" ∷ codes "ClusterRoleBinding" ∷ codes "Role" ∷ codes "RoleBinding" ∷ [])
    then codes "critical"
    else if any (text_eq kind) (codes "Secret" ∷ codes "ConfigMap" ∷ [])
    then codes "high"
    else codes "medium"

-- FormatDrift of a resource that was added, and of a field that was modified.
abbrev pub format_added : Text → Text → Text
format_added kind name =
    codes "Resource "
    ++ kind
    ++ codes "/"
    ++ name
    ++ codes " exists in cluster but not in Git (shadow resource)"

abbrev pub format_modified : Text → Text → Text → Text → Text → Text
format_modified kind name path live desired =
    codes "Resource "
    ++ kind
    ++ codes "/"
    ++ name
    ++ codes " has drifted at "
    ++ path
    ++ codes ": live="
    ++ quote live
    ++ codes " desired="
    ++ quote desired

-- IgnoreFields of DefaultConfig.
abbrev pub default_ignore_fields : List Text
default_ignore_fields =
    codes ".metadata.resourceVersion"
    ∷ codes ".metadata.uid"
    ∷ codes ".metadata.creationTimestamp"
    ∷ codes ".metadata.generation"
    ∷ codes ".metadata.managedFields"
    ∷ codes ".status"
    ∷ []

-- shouldIgnoreField
unfoldable pub should_ignore_field : List Text → Text → Bool
unfolding has_prefix
should_ignore_field ignore_fields field_path = any (has_prefix field_path) ignore_fields

-- `live[key]`
unfoldable pub field_of : Text → Fields → Option Value
field_of key no_fields = none
field_of key (field k v fs) = let rest = field_of key fs in if text_eq k key then some v else rest

module _ (ignore_fields : List Text) (print_object : Fields → Text)
    (kind name namespace : Text) where
  -- %v
  abbrev pub print : Value → Text
  print (scalar t) = t
  print (object fs) = print_object fs

  abbrev pub modified : Text → Text → Text → Text → DriftResult
  modified path live desired message = record {
    type = type_modified;
    resource_kind = kind;
    resource_name = name;
    namespace = namespace;
    field_path = path;
    live_value = live;
    desired_value = desired;
    severity = classify_severity kind path;
    message = message;
  }

  abbrev pub missing : Text → Value → DriftResult
  missing path v =
      modified path (codes "<missing>") (print v)
        (codes "Field " ++ path ++ codes " missing in live resource")

  -- The comparison of scalar values.
  pub compare : Value → Value → Text → List DriftResult
  unfolding classify_severity
  compare live desired path =
      if text_eq (print live) (print desired)
      then []
      else modified path (print live) (print desired)
          (format_modified kind name path (print live) (print desired))
        ∷ []

  -- diffObjects: the loop over the fields, and the body for a field that is not ignored.
  unfoldable mutual
    unfolding compare should_ignore_field field_of

    pub diff_objects : Fields → Fields → Text → List DriftResult
    diff_objects live no_fields prefix = []
    diff_objects live (field key v rest) prefix =
        let here = diff_value (field_of key live) v (prefix ++ codes "." ++ key) in
        let others = diff_objects live rest prefix in
        if should_ignore_field ignore_fields (prefix ++ codes "." ++ key)
        then others
        else here ++ others

    pub diff_value : Option Value → Value → Text → List DriftResult
    diff_value none v path = missing path v ∷ []
    diff_value (some (object l)) (object d) path = diff_objects l d path
    diff_value (some (object l)) (scalar t) path = compare (object l) (scalar t) path
    diff_value (some (scalar s)) v path = compare (scalar s) v path

-- inferGitPath
unfoldable pub infer_git_path : Text → Text → Text → Text
unfolding to_lower
infer_git_path kind name namespace =
    codes "k8s/" ++ namespace ++ codes "/" ++ to_lower kind ++ codes "-" ++ name ++ codes ".yaml"

-- What compareResource gives of the drifts: the first one.
abbrev pub first : {A : Type 0} → List A → Option A
first [] = none
first (r ∷ rs) = some r

module _ (ignore_fields : List Text) (print_object : Fields → Text) (get_file : Text → Attempt Text)
    (parse : Text → Option Fields) where
  abbrev pub parsed : Text → Text → Text → Fields → Option Fields → Attempt (Option DriftResult)
  parsed kind name namespace live none = ok none
  parsed kind name namespace live (some desired) =
      ok (first (diff_objects ignore_fields print_object kind name namespace live desired []))

  abbrev pub after_get_file :
      Text → Text → Text → Fields → Attempt Text → Attempt (Option DriftResult)
  after_get_file kind name namespace live (err e) =
      if contains e (codes "404")
      then ok (
          some (record {
            type = type_added;
            resource_kind = kind;
            resource_name = name;
            namespace = namespace;
            field_path = [];
            live_value = [];
            desired_value = [];
            severity = classify_severity kind [];
            message = format_added kind name;
          }))
      else err e
  after_get_file kind name namespace live (ok content) =
      parsed kind name namespace live (parse content)

  -- compareResource. `parse` gives `none` for a manifest that is skipped.
  unfoldable pub compare_resource : Text → Text → Text → Fields → Attempt (Option DriftResult)
  unfolding classify_severity contains diff_objects infer_git_path
  compare_resource kind name namespace live =
      after_get_file kind name namespace live (get_file (infer_git_path kind name namespace))
