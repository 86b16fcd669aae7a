-- ===== src/Drift/Tests.antt =====
-- A Deployment whose replicas were changed by hand.
use aotanami.Prelude.{
  ◌≡◌, refl, ◌↔◌, [], ◌∷◌, codes, Text, All, false, map, has_prefix, text_eq, List,
}
use aotanami.Drift.{
  Fields, object, scalar, field, no_fields, diff_objects, diff_value, DriftResult,
  should_ignore_field, default_ignore_fields, field_of,
}
use aotanami.Drift.Agreement.{Agrees, diff_objects_lem}

abbrev with_replicas : Text → Fields
with_replicas n =
    field (codes "spec") (object (field (codes "replicas") (scalar n) no_fields))
      (field (codes "status") (scalar n) no_fields)

abbrev print_object : Fields → Text
print_object fs = codes "map[]"

abbrev drifts : List DriftResult
drifts =
    diff_objects default_ignore_fields print_object (codes "Deployment") (codes "api")
      (codes "prod") (with_replicas (codes "9")) (with_replicas (codes "3")) []

diff_objects_lem_example :
    ((drifts ≡ [])
      ↔ Agrees default_ignore_fields print_object
          (with_replicas (codes "9"))
          (with_replicas (codes "3"))
          [])
    × All (λ r. should_ignore_field default_ignore_fields r.field_path ≡ false) drifts
diff_objects_lem_example =
    diff_objects_lem default_ignore_fields print_object (codes "Deployment") (codes "api")
      (codes "prod") (with_replicas (codes "9")) (with_replicas (codes "3")) []

-- The replicas drifted; the status is ignored.
replicas_drifted : map (λ r. r.field_path) drifts ≡ codes ".spec.replicas" ∷ []
unfolding diff_objects diff_value field_of should_ignore_field has_prefix text_eq
replicas_drifted = refl
