-- ===== src/Tests/Helpers.antt =====
-- Runs of the helpers for tests, and of the examples.
use ksql.Prelude.{ℕ, zero, suc, ◌≡◌, refl, arith, true, String, some, Option, [], ◌∷◌, get_elem?}
use ksql.Prelude.Dict.{Dict, lookup}
use ksql.Prelude.Result.{ok, err, external}
use ksql.Reflect.{
  GoType, Value, basic, ptr, scalar, text, ref, list, object, done, more, Values, values, nil_ptr,
}
use ksql.Structs.Info.{by_index, by_name, find_index}
use ksql.Structs.Cache.{empty-IsFaithful}
use ksql.Structs.ToMap.{struct_to_map, present}
use ksql.Structs.ToMap.Laws.{attribute}
use ksql.Convert.{new_ptr_converter, convert}
use ksql.Convert.Laws.{convert-new_ptr_converter}
use ksql.Db.Scanning.{zero_value}
use ksql.Db.Provider.{provider_of}
use ksql.Ksqltest.{Reflection, fill_struct_with, fill_slice_with}
use ksql.Ksqltest.Laws.{written, or_before, fill_struct_with-written}
use ksql.Ksqltest.Pointers.{refused, fill_slice_with-refused}
use ksql.Ksqltest.RoundTrip.{IsRestorable, fill_struct_with-struct_to_map}
use ksql.Examples.Users.{change_user_email}
use ksql.Examples.Users.Laws.{patching, change_user_email-patching}
use ksql.Examples.Service.{send_all}
use ksql.Tests.{
  tagged, client, start, user, user_type, user_fields, user_values, user_info, read_user,
}
use ksql.Tests.Writes.{go}
use mathlib.Core.List.Permᴰ

-- Every value converts to every type as itself.
abbrev plain : Reflection
plain = record { conversions = λ s t v. some v; visits = λ m. m }

abbrev four : Value
four = scalar (basic "int") 4

int_back : convert plain.conversions (new_ptr_converter four) (basic "int") ≡ ok four
int_back = (convert-new_ptr_converter plain.conversions (basic "int") four refl refl refl).0

text_back :
    (s : String)
    → convert plain.conversions (new_ptr_converter (text s)) (basic "string") ≡ ok (text s)
text_back s =
    (convert-new_ptr_converter plain.conversions (basic "string") (text s) refl refl refl).0

restore :
    (t : GoType) (v : Value)
    → convert plain.conversions (new_ptr_converter v) t ≡ ok v
    → present t v ≡ some v
    → (u : GoType) (w : Value) → ◌≡◌ {A = Option (GoType × Value)} (some (t, v)) (some (u, w))
    → IsRestorable plain.conversions u w
restore t v back there u w same =
    let one : (t ≡ u) × (v ≡ w) = (cc same, cc same) in
    rw (← one.0) (
      rw (← one.1) (record {
        back = λ x e. let followed : v ≡ x = cc (e, there) in rw (← followed) back;
        nil = λ e. absurd (cc (e, there));
      }))

user-IsRestorable :
    (l : ℕ) (t : GoType) (v : Value)
    → (by_index user_info l).valid ≡ true
    → attribute user_fields user_values 0 l ≡ some (t, v)
    → IsRestorable plain.conversions t v
user-IsRestorable zero t v there here = restore (basic "int") four int_back refl t v here
user-IsRestorable (suc zero) t v there here =
    restore (basic "string") (text "Ada") (text_back "Ada") refl t v here
user-IsRestorable (suc (suc l)) t v there here = absurd (ground (arith, here))

fill_struct_with-struct_to_map_example :
    (m : Dict Value) × ((struct_to_map (ref user) []).0 ≡ ok m)
    × ((fill_struct_with plain m (ref (zero_value user_type), [])).0 ≡ ok tt)
    × ((us : Values) × ((fill_struct_with plain m (ref (zero_value user_type), [])).1.0
          ≡ ref (object "User" user_fields us))
        × (get_elem? (values us) 1 ≡ some (text "Ada")))
unfolding by_index find_index
fill_struct_with-struct_to_map_example =
    fill_struct_with-struct_to_map plain "User" user_fields user_values user_info read_user refl
      user-IsRestorable Permᴰ.refl [] [] empty-IsFaithful empty-IsFaithful 1 (basic "string")
      (text "Ada") refl refl

-- A row without a column of the struct's.
abbrev renamed : Dict Value
renamed = ("name", text "Bob") ∷ ("age", four) ∷ []

fill_struct_with-written_example :
    ((fill_struct_with plain renamed (ref user, [])).0 ≡ ok tt)
    × ((us : Values) × ((fill_struct_with plain renamed (ref user, [])).1.0
          ≡ ref (object "User" user_fields us))
        × (get_elem? (values us) 1
            ≡ or_before
                (written plain.conversions user_info user_fields renamed 1)
                (get_elem? (values user_values) 1)))
unfolding by_name lookup
fill_struct_with-written_example =
    fill_struct_with-written plain "User" user_fields user_values user_info read_user []
      empty-IsFaithful renamed 1 refl
      (
        λ _. (tagged "name", basic "string", text "Bob", refl, text_back "Bob"),
        (λ e. absurd (cc e), tt),
      )

fill_slice_with-refused_example :
    fill_slice_with plain
      (renamed ∷ [])
      (ref (list (ptr user_type) (more (nil_ptr user_type) done)), [])
    ≡ (err refused, (ref (list (ptr user_type) (more (nil_ptr user_type) done)), []))
fill_slice_with-refused_example =
    fill_slice_with-refused plain "User" user_fields renamed [] [] (more (nil_ptr user_type) done)
      (tt, tt)

change_user_email-patching_example :
    change_user_email
      (λ tx. patching (λ table v w. (err (external 1), w)) (provider_of go tx))
      (patching (λ table v w. (err (external 1), w)) (provider_of go client))
      four
      "ada@x"
    ≡ change_user_email (provider_of go) (provider_of go client) four "ada@x"
change_user_email-patching_example =
    change_user_email-patching (λ table v w. (err (external 1), w)) (provider_of go)
      (provider_of go client) four "ada@x"

nothing_sent : send_all (λ v w. (err (external 2), w)) [] start ≡ (ok tt, start)
unfolding send_all
nothing_sent = refl
