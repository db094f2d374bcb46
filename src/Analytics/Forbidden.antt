-- ===== src/Analytics/Forbidden.antt =====
-- What the screening of the properties finds: containsForbiddenProperty and validateAnalyticsEvent
-- of packages/api/src/analytics.ts.
use project_pn.Prelude.{◌≡◌, ◌↔◌, inl, inr, refl, String, true, arith, Bool-cases, or-true}
use project_pn.Analytics.Event.{
  Json, null, flag, number, text, array, object, Elements, end_of_array, element, Members,
  end_of_object, member, Texts, is_forbidden_key, contains_forbidden_property,
  some_element_forbidden, some_member_forbidden,
}

-- A key at any depth of a value.
mutual
  pub data Key (key : String) : Json → Type 0 where
    in_array : {rest : Elements} → ElementKey key rest → Key key (array rest)
    in_object : {rest : Members} → MemberKey key rest → Key key (object rest)

  pub data ElementKey (key : String) : Elements → Type 0 where
    in_element :
        {value : Json} {rest : Elements} → Key key value → ElementKey key (element value rest)
    in_later_element :
        {value : Json} {rest : Elements} → ElementKey key rest → ElementKey key (element value rest)

  pub data MemberKey (key : String) : Members → Type 0 where
    here :
        {name : String} {value : Json} {rest : Members}
        → name ≡ key
        → MemberKey key (member name value rest)
    in_member :
        {name : String} {value : Json} {rest : Members}
        → Key key value
        → MemberKey key (member name value rest)
    in_later_member :
        {name : String} {value : Json} {rest : Members}
        → MemberKey key rest
        → MemberKey key (member name value rest)

module _ (texts : Texts) where
  -- A forbidden key of a value.
  abbrev pub HasForbidden : Json → Type 0
  HasForbidden value = (key : String) × Key key value × (is_forbidden_key texts key ≡ true)

  abbrev ElementsForbidden : Elements → Type 0
  ElementsForbidden rest =
      (key : String) × ElementKey key rest × (is_forbidden_key texts key ≡ true)

  abbrev MembersForbidden : Members → Type 0
  MembersForbidden rest = (key : String) × MemberKey key rest × (is_forbidden_key texts key ≡ true)

  mutual
    unfolding contains_forbidden_property

    found : (value : Json) → contains_forbidden_property texts value ≡ true → HasForbidden value
    found null h = cc
    found (flag b) h = cc
    found (number literal) h = cc
    found (text t) h = cc
    found (array rest) h = let f = found_element rest h in (f.0, in_array f.1, f.2)
    found (object rest) h = let f = found_member rest h in (f.0, in_object f.1, f.2)

    found_element :
        (rest : Elements) → some_element_forbidden texts rest ≡ true → ElementsForbidden rest
    found_element end_of_array h = cc
    found_element (element value rest) h =
        elim (Bool-cases (contains_forbidden_property texts value)) [
          | inl inside ↦ let f = found value inside in (f.0, in_element f.1, f.2)
          | inr outside ↦
              let f = found_element rest (rw outside at h) in (f.0, in_later_element f.1, f.2)
        ]

    found_member :
        (rest : Members) → some_member_forbidden texts rest ≡ true → MembersForbidden rest
    found_member end_of_object h = cc
    found_member (member key value rest) h = elim (Bool-cases (is_forbidden_key texts key)) [
      | inl bad ↦ (key, here refl, bad)
      | inr good ↦ elim (Bool-cases (contains_forbidden_property texts value)) [
        | inl inside ↦ let f = found value inside in (f.0, in_member f.1, f.2)
        | inr outside ↦
            let f = found_member rest (rw (good, outside) at h) in (f.0, in_later_member f.1, f.2)
      ]
    ]

  mutual
    unfolding contains_forbidden_property

    refused :
        (key : String) (value : Json)
        → is_forbidden_key texts key ≡ true
        → Key key value
        → contains_forbidden_property texts value ≡ true
    refused key null bad at = elim at [ ]
    refused key (flag b) bad at = elim at [ ]
    refused key (number literal) bad at = elim at [ ]
    refused key (text t) bad at = elim at [ ]
    refused key (array rest) bad (in_array at) = refused_element key rest bad at
    refused key (object rest) bad (in_object at) = refused_member key rest bad at

    refused_element :
        (key : String) (rest : Elements)
        → is_forbidden_key texts key ≡ true
        → ElementKey key rest
        → some_element_forbidden texts rest ≡ true
    refused_element key end_of_array bad at = elim at [ ]
    refused_element key (element value rest) bad (in_element at) =
        rw (refused key value bad at) refl
    refused_element key (element value rest) bad (in_later_element at) =
        rw (refused_element key rest bad at) (or-true (contains_forbidden_property texts value))

    refused_member :
        (key : String) (rest : Members)
        → is_forbidden_key texts key ≡ true
        → MemberKey key rest
        → some_member_forbidden texts rest ≡ true
    refused_member key end_of_object bad at = elim at [ ]
    refused_member key (member name value rest) bad (here same) =
        let name_bad : is_forbidden_key texts name ≡ true = rw same bad in rw name_bad refl
    refused_member key (member name value rest) bad (in_member at) =
        ground (arith, refused key value bad at)
    refused_member key (member name value rest) bad (in_later_member at) =
        ground (arith, refused_member key rest bad at)

  -- The screening refuses a value exactly when a forbidden key occurs in it, in any spelling that
  -- normalizes to it and at any depth of arrays and objects.
  pub contains_forbidden_property-finds :
      (value : Json) → (contains_forbidden_property texts value ≡ true) ↔ HasForbidden value
  contains_forbidden_property-finds value = (found value, λ f. refused f.0 value f.2 f.1)
