-- ===== src/Sql/Ids/Laws.antt =====
-- The ids that Delete and Patch send are all there and none is a zero value.
use ksql.Prelude.{
  String, ◌≡◌, refl, ap, ◌∙◌, ◌↔◌, false, Option, none, some, List, [], ◌∷◌, All, arith,
}
use ksql.Prelude.Dict.{Dict, lookup}
use ksql.Prelude.Result.{Result, ok, err, panic}
use ksql.Prelude.Action.{continue, lift, pure, ◌>>=◌}
use ksql.Reflect.{GoType, map_of, struct, Value, null, scalar, ref, dict, object, is_zero}
use ksql.World.{World}
use ksql.World.Quiet.{IsQuiet, quiet_rules}
use ksql.Sql.Ids.{
  check_id, and_also, validate_if_all_ids_are_present, from_struct, from_typed, from_pointer,
  not_a_map, read_ids, normalize_ids_as_map,
}

-- The map has a value for the id, which is not the zero value of its type.
abbrev pub IsGiven : Dict Value → String → Type 0
IsGiven m id = (v : Value) × (lookup id m ≡ some v) × (is_zero v ≡ false)

check_id_sound :
    (o : Option Value) → check_id o ≡ ok tt → (v : Value) × (o ≡ some v) × (is_zero v ≡ false)
unfolding check_id
check_id_sound none h = absurd (cc h)
check_id_sound (some null) h = absurd (cc h)
check_id_sound (some v) h = (v, refl, ground arith)

check_id_complete :
    (o : Option Value) (v : Value) → o ≡ some v → is_zero v ≡ false → check_id o ≡ ok tt
unfolding check_id
check_id_complete none v h z = absurd (cc h)
check_id_complete (some null) v h z = ground arith
check_id_complete (some w) v h z = ground arith

and_also-ok : (r s : Result (Unit {0})) → and_also r s ≡ ok tt → (r ≡ ok tt) × (s ≡ ok tt)
unfolding and_also
and_also-ok (ok tt) s h = (refl, h)
and_also-ok (err e) s h = absurd (cc h)
and_also-ok (panic p) s h = absurd (cc h)

-- validateIfAllIdsArePresent succeeds if and only if the map has for every id a value that is not
-- the zero value of its type.
pub validate_if_all_ids_are_present_iff :
    (ids : List String) (m : Dict Value)
    → (validate_if_all_ids_are_present ids m ≡ ok tt) ↔ All (IsGiven m) ids
unfolding validate_if_all_ids_are_present
validate_if_all_ids_are_present_iff [] m = (λ _. tt, λ _. refl)
validate_if_all_ids_are_present_iff (id ∷ ids) m =
    let ih = validate_if_all_ids_are_present_iff ids m in
    (
      λ h.
          let (here, later) = and_also-ok (check_id (lookup id m)) _ h in
          (check_id_sound (lookup id m) here, ih.0 later),
      λ h. rw (check_id_complete (lookup id m) h.0.0 h.0.1 h.0.2, and_also) (ih.1 h.1),
    )

from_struct-IsQuiet : (v : Value) → IsQuiet (from_struct v)
unfolding from_struct
from_struct-IsQuiet v = record { at = λ w. refl }

not_a_map-IsQuiet : IsQuiet not_a_map
unfolding not_a_map
not_a_map-IsQuiet = search quiet_rules

from_typed-IsQuiet : (id : String) (t : GoType) (v : Value) → IsQuiet (from_typed id t v)
unfolding from_typed
from_typed-IsQuiet id (map_of k e) v = search (quiet_rules, not_a_map-IsQuiet)
from_typed-IsQuiet id (struct n fs) v = from_struct-IsQuiet v
from_typed-IsQuiet id _ v = search quiet_rules

from_pointer-IsQuiet : (id : String) (u v : Value) → IsQuiet (from_pointer id u v)
unfolding from_pointer
from_pointer-IsQuiet id (object n fs vs) v = from_struct-IsQuiet v
from_pointer-IsQuiet id (dict es) v = not_a_map-IsQuiet
from_pointer-IsQuiet id (scalar (map_of k e) n) v = not_a_map-IsQuiet
from_pointer-IsQuiet id _ v = search quiet_rules

read_ids-IsQuiet : (id : String) (v : Value) → IsQuiet (read_ids id v)
unfolding read_ids
read_ids-IsQuiet id (ref v) = from_pointer-IsQuiet id v (ref v)
read_ids-IsQuiet id (object n fs vs) = from_struct-IsQuiet (object n fs vs)
read_ids-IsQuiet id (scalar t n) = from_typed-IsQuiet id t (scalar t n)
read_ids-IsQuiet id _ = search quiet_rules

pub normalize_ids_as_map-IsQuiet :
    (ids : List String) (v : Value) → IsQuiet (normalize_ids_as_map ids v)
unfolding normalize_ids_as_map
normalize_ids_as_map-IsQuiet [] v = search quiet_rules
normalize_ids_as_map-IsQuiet (id ∷ ids) v = search (quiet_rules, read_ids-IsQuiet)

-- The map that it returns has every id.
pub normalize_ids_as_map-IsGiven :
    (ids : List String) (v : Value) (w : World) (m : Dict Value)
    → (normalize_ids_as_map ids v w).0 ≡ ok m
    → All (IsGiven m) ids
unfolding normalize_ids_as_map
normalize_ids_as_map-IsGiven [] v w m h = tt
normalize_ids_as_map-IsGiven (id ∷ ids) v w m h =
    checked ((read_ids id v w).0) (read_ids id v w).1 h
  where
    kept :
        (found : Dict Value) (s : World) (r : Result (Unit {0}))
        → validate_if_all_ids_are_present (id ∷ ids) found ≡ r
        → (continue r (λ _. pure found) s).0 ≡ ok m
        → All (IsGiven m) (id ∷ ids)
    kept found s (ok tt) q e =
        (validate_if_all_ids_are_present_iff (id ∷ ids) m).0
          (ap (validate_if_all_ids_are_present (id ∷ ids)) (cc e) ∙ q)
    kept found s (err x) q e = absurd (cc e)
    kept found s (panic x) q e = absurd (cc e)

    checked :
        (r : Result (Dict Value)) (s : World)
        → (continue r
            (λ id_map.
              lift (validate_if_all_ids_are_present (id ∷ ids) id_map) >>= λ _. pure id_map)
            s).0
          ≡ ok m
        → All (IsGiven m) (id ∷ ids)
    checked (ok found) s e = kept found s _ refl e
    checked (err x) s e = absurd (cc e)
    checked (panic x) s e = absurd (cc e)
