-- ===== src/Server/Privacy/Names.antt =====
-- What a scan that passes has seen: every field name and every text, at every depth
-- (server/src/privacy.rs).
use sec_s_magik.Base.{
  Bool, true, ◌&&◌, List, [], ◌∷◌, ◌++◌, Text, Result, ok, err, ◌>>◌, is_ok, ◌≡◌, ◌↔◌, refl, sym,
  ap, ◌∙◌, all, all-append, list_eq, nat_eq, arith,
}
use sec_s_magik.Server.Privacy.{
  PrivacySurface, DisclosurePolicy, check_field_name, scan_text, scan_value, scan_items,
  scan_object, surface_eq, class_eq, representation_eq,
}
use sec_s_magik.Contract.Json.{
  Json, null, boolean, number, string, array, object, Items, nil, cons, Fields, end, field,
}

-- The names of fields and the texts of a value, at every depth.
unfoldable mutual
  pub names_of : Json → List Text
  names_of (array items) = names_of_items items
  names_of (object fields) = names_of_fields fields
  names_of _ = []

  pub names_of_items : Items → List Text
  names_of_items nil = []
  names_of_items (cons value items) = names_of value ++ names_of_items items

  pub names_of_fields : Fields → List Text
  names_of_fields end = []
  names_of_fields (field name value fields) = name ∷ (names_of value ++ names_of_fields fields)

unfoldable mutual
  pub texts_of : Json → List Text
  texts_of (string text) = text ∷ []
  texts_of (array items) = texts_of_items items
  texts_of (object fields) = texts_of_fields fields
  texts_of _ = []

  pub texts_of_items : Items → List Text
  texts_of_items nil = []
  texts_of_items (cons value items) = texts_of value ++ texts_of_items items

  pub texts_of_fields : Fields → List Text
  texts_of_fields end = []
  texts_of_fields (field name value fields) = texts_of value ++ texts_of_fields fields

is_ok->> : {E : Type 0} (r s : Result E (Unit {0})) → is_ok (r >> s) ≡ (is_ok r && is_ok s)
is_ok->> (ok u) s = refl
is_ok->> (err e) s = refl

&&_assoc : (a b c : Bool) → ((a && b) && c) ≡ (a && (b && c))
&&_assoc a b c = ground arith

is_ok-ok : {E : Type 0} (r : Result E (Unit {0})) → is_ok r ≡ true → r ≡ ok tt
is_ok-ok (ok u) h = refl
is_ok-ok (err e) h = cc h

-- The two questions that a scan asks of a value, over the lists.
module _ (on : PrivacySurface) (policy : DisclosurePolicy) where
  unfoldable pub is_clean : List Text → List Text → Bool
  is_clean names texts =
      all (λ name. is_ok (check_field_name on policy name)) names
      && all (λ text. is_ok (scan_text on policy text)) texts

  is_clean-append :
      (ns ns' ts ts' : List Text)
      → is_clean (ns ++ ns') (ts ++ ts') ≡ (is_clean ns ts && is_clean ns' ts')
  unfolding is_clean
  is_clean-append ns ns' ts ts' = ground (
    arith,
    all-append (λ name. is_ok (check_field_name on policy name)) ns ns',
    all-append (λ text. is_ok (scan_text on policy text)) ts ts',
  )

  is_clean_nil : is_clean [] [] ≡ true
  unfolding is_clean
  is_clean_nil = refl

  is_clean_text : (text : Text) → is_clean [] (text ∷ []) ≡ is_ok (scan_text on policy text)
  unfolding is_clean
  is_clean_text text = ground arith

  is_clean_name :
      (name : Text) (ns ts : List Text)
      → is_clean (name ∷ ns) ts ≡ (is_ok (check_field_name on policy name) && is_clean ns ts)
  unfolding is_clean
  is_clean_name name ns ts = ground arith

  mutual
    unfolding scan_value names_of texts_of

    scan_value-is_clean :
        (v : Json) → is_ok (scan_value on policy v) ≡ is_clean (names_of v) (texts_of v)
    scan_value-is_clean null = sym is_clean_nil
    scan_value-is_clean (boolean b) = sym is_clean_nil
    scan_value-is_clean (number n) = sym is_clean_nil
    scan_value-is_clean (string text) = sym (is_clean_text text)
    scan_value-is_clean (array items) = scan_items-is_clean items
    scan_value-is_clean (object fields) = scan_object-is_clean fields

    scan_items-is_clean :
        (vs : Items)
        → is_ok (scan_items on policy vs) ≡ is_clean (names_of_items vs) (texts_of_items vs)
    scan_items-is_clean nil = sym is_clean_nil
    scan_items-is_clean (cons v vs) = ground (
      arith,
      is_ok->> (scan_value on policy v) (scan_items on policy vs),
      scan_value-is_clean v,
      scan_items-is_clean vs,
      is_clean-append (names_of v) (names_of_items vs) (texts_of v) (texts_of_items vs),
    )

    scan_object-is_clean :
        (fs : Fields)
        → is_ok (scan_object on policy fs) ≡ is_clean (names_of_fields fs) (texts_of_fields fs)
    scan_object-is_clean end = sym is_clean_nil
    scan_object-is_clean (field name v fs) =
        rw
          (
            is_ok->> (check_field_name on policy name >> scan_value on policy v)
                (scan_object on policy fs),
            is_ok->> (check_field_name on policy name) (scan_value on policy v),
            scan_value-is_clean v,
            scan_object-is_clean fs,
            is_clean_name name (names_of v ++ names_of_fields fs)
                (texts_of v ++ texts_of_fields fs),
            is_clean-append (names_of v) (names_of_fields fs) (texts_of v) (texts_of_fields fs),
          )
          (&&_assoc (is_ok (check_field_name on policy name)) (is_clean (names_of v) (texts_of v))
            (is_clean (names_of_fields fs) (texts_of_fields fs)))

  -- A scan of a value passes exactly when the name of every field and every text in it, at every depth,
  -- passes the check of one name and the scan of one text.
  pub scan_value_passes :
      (v : Json) → (scan_value on policy v ≡ ok tt) ↔ (is_clean (names_of v) (texts_of v) ≡ true)
  scan_value_passes v = (
    (λ h. sym (scan_value-is_clean v) ∙ ap is_ok h),
    λ h. is_ok-ok (scan_value on policy v) (scan_value-is_clean v ∙ h),
  )
