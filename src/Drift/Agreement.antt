-- ===== src/Drift/Agreement.antt =====
-- When a resource has no drift.
use aotanami.Drift.{
  Fields, Value, compare, diff_objects, diff_value, field, field_of, no_fields, object, print,
  scalar, should_ignore_field,
}
use aotanami.Prelude.{
  ◌⊎◌, true, All, All-append, Bool-cases, List, Option, Text, [], append-nil_iff, arith, codes,
  false, inl, inr, none, refl, some, text_eq, text_eq_iff, ◌++◌, ◌↔◌, ◌≡◌,
}

module _ (ignore_fields : List Text) (print_object : Fields → Text) where
  abbrev shown : Value → Text
  shown v = print ignore_fields print_object [] [] [] v

  -- The live object has every field of the desired one that is not ignored, with an object that agrees
  -- if both are objects, and else with a value that prints alike.
  unfoldable mutual
    pub AgreesAt : Option Value → Value → Text → Type 0
    AgreesAt none v path = ⊥
    AgreesAt (some (object l)) (object d) path = Agrees l d path
    AgreesAt (some (object l)) (scalar t) path = shown (object l) ≡ t
    AgreesAt (some (scalar s)) v path = s ≡ shown v

    pub Agrees : Fields → Fields → Text → Type 0
    Agrees live no_fields prefix = Unit
    Agrees live (field key v rest) prefix =
        ((should_ignore_field ignore_fields (prefix ++ codes "." ++ key) ≡ true)
          ⊎ AgreesAt (field_of key live) v (prefix ++ codes "." ++ key))
        × Agrees live rest prefix

  module _ (kind name namespace : Text) where
    compare-nil_iff :
        (l d : Value) (path : Text)
        → (compare ignore_fields print_object kind name namespace l d path ≡ [])
          ↔ (shown l ≡ shown d)
    unfolding compare
    compare-nil_iff l d path =
        let (to, from) = text_eq_iff (shown l) (shown d) in
        elim (Bool-cases (text_eq (shown l) (shown d))) [
          | inl e ↦ rw e ((λ _. to e), λ _. refl)
          | inr e ↦
              rw e ((λ h. absurd (ground (arith, h))), λ h. absurd (ground (arith, e, from h)))
        ]

    mutual
      unfolding diff_objects diff_value Agrees AgreesAt

      diff_objects-nil_iff :
          (desired live : Fields) (prefix : Text)
          → (diff_objects ignore_fields print_object kind name namespace live desired prefix ≡ [])
            ↔ Agrees live desired prefix
      diff_objects-nil_iff no_fields live prefix = ((λ _. tt), λ _. refl)
      diff_objects-nil_iff (field key v rest) live prefix =
          let path = prefix ++ codes "." ++ key in
          let (to, from) = diff_value-nil_iff v (field_of key live) path in
          let (to', from') = diff_objects-nil_iff rest live prefix in
          let (split, glue) =
            append-nil_iff
              (diff_value ignore_fields print_object kind name namespace (field_of key live) v path)
              (diff_objects ignore_fields print_object kind name namespace live rest prefix) in
          elim (Bool-cases (should_ignore_field ignore_fields path)) [
            | inl e ↦ rw e ((λ h. (inl refl, to' h)), λ k. from' k.1)
            | inr e ↦ rw e (
              (λ h. (inr (to (split h).0), to' (split h).1)),
              λ k.
                  glue
                    (elim k.0 [ inl x ↦ absurd (ground (arith, x)) | inr a ↦ from a ], from' k.1),
            )
          ]

      diff_value-nil_iff :
          (v : Value) (o : Option Value) (path : Text)
          → (diff_value ignore_fields print_object kind name namespace o v path ≡ [])
            ↔ AgreesAt o v path
      diff_value-nil_iff v none path = ((λ h. absurd (ground (arith, h))), λ a. absurd a)
      diff_value-nil_iff (object d) (some (object l)) path = diff_objects-nil_iff d l path
      diff_value-nil_iff (scalar t) (some (object l)) path =
          compare-nil_iff (object l) (scalar t) path
      diff_value-nil_iff v (some (scalar s)) path = compare-nil_iff (scalar s) v path

    compare-NotIgnored :
        (l d : Value) (path : Text)
        → should_ignore_field ignore_fields path ≡ false
        → All
            (λ r. should_ignore_field ignore_fields r.field_path ≡ false)
            (compare ignore_fields print_object kind name namespace l d path)
    unfolding compare
    compare-NotIgnored l d path h = elim (Bool-cases (text_eq (shown l) (shown d))) [
      | inl e ↦ rw e tt
      | inr e ↦ rw e (h, tt)
    ]

    mutual
      unfolding diff_objects diff_value

      diff_objects-NotIgnored :
          (desired live : Fields) (prefix : Text)
          → All
              (λ r. should_ignore_field ignore_fields r.field_path ≡ false)
              (diff_objects ignore_fields print_object kind name namespace live desired prefix)
      diff_objects-NotIgnored no_fields live prefix = tt
      diff_objects-NotIgnored (field key v rest) live prefix =
          let path = prefix ++ codes "." ++ key in
          let later = diff_objects-NotIgnored rest live prefix in
          let here = diff_value-NotIgnored v (field_of key live) path in
          elim (Bool-cases (should_ignore_field ignore_fields path)) [
            | inl e ↦ rw e later
            | inr e ↦ rw e (All-append _ _ _ (here e) later)
          ]

      diff_value-NotIgnored :
          (v : Value) (o : Option Value) (path : Text)
          → should_ignore_field ignore_fields path ≡ false
          → All
              (λ r. should_ignore_field ignore_fields r.field_path ≡ false)
              (diff_value ignore_fields print_object kind name namespace o v path)
      diff_value-NotIgnored v none path h = (h, tt)
      diff_value-NotIgnored (object d) (some (object l)) path h = diff_objects-NotIgnored d l path
      diff_value-NotIgnored (scalar t) (some (object l)) path h =
          compare-NotIgnored (object l) (scalar t) path h
      diff_value-NotIgnored v (some (scalar s)) path h = compare-NotIgnored (scalar s) v path h

    -- There is no drift exactly if the live object has every field of the desired one that is not
    -- ignored, with an object that agrees if both are objects, and else with a value that prints
    -- alike; and no drift is reported at a path that is ignored.
    pub diff_objects_lem :
        (live desired : Fields) (prefix : Text)
        → ((diff_objects ignore_fields print_object kind name namespace live desired prefix ≡ [])
            ↔ Agrees live desired prefix)
          × All
              (λ r. should_ignore_field ignore_fields r.field_path ≡ false)
              (diff_objects ignore_fields print_object kind name namespace live desired prefix)
    diff_objects_lem live desired prefix =
        (diff_objects-nil_iff desired live prefix, diff_objects-NotIgnored desired live prefix)
