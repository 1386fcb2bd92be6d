-- ===== src/Structs/Tags/Bounds.antt =====
-- Every field that getTagNames found is a field of the struct: what indexes the struct by it stays in range.
use ksql.Prelude.{
  ℕ, suc, ◌+◌, ◌<◌, ◌≤◌, String, ◌≡◌, inl, inr, true, false, some, ◌==◌, arith, Option-cases,
  Bool-cases,
}
use mathlib.Core.Path.{subst}
use ksql.Prelude.Dict.{lookup, insert, lookup-insert}
use ksql.Prelude.Text.{to_lower}
use ksql.Prelude.Result.{ok, and_then-ok}
use ksql.Reflect.{Fields, struct, end, field, num_field}
use ksql.Structs.Info.{StructInfo, FieldInfo, by_name, insert_new, add, empty_info}
use ksql.Structs.Tags.{parse_tag, ksql_tags, tablename_tags, nested_tags, get_tag_names}

-- Every field that is found by a name has an index below `m`.
record IsBelow (m : ℕ) (info : StructInfo) : Type 0 where
  pub at : (name : String) (f : FieldInfo) → lookup name info.by_name_map ≡ some f → f.index < m

add-IsBelow :
    (m : ℕ) (info : StructInfo) (f : FieldInfo)
    → IsBelow m info
    → f.index < m
    → IsBelow m (add info f)
unfolding add insert_new
add-IsBelow m info f b h = record {
  at = λ name g found. ground (
    arith,
    b.at name g,
    lookup-insert f.name name (record f { valid = true }) info.by_name_map,
    lookup-insert (to_lower f.name) name (record f { valid = true })
        (insert f.name (record f { valid = true }) info.by_name_map),
  );
}

ksql_tags-IsBelow :
    (m : ℕ) (fs : Fields) (i : ℕ) (info final : StructInfo)
    → i + num_field fs ≤ m
    → IsBelow m info
    → ksql_tags fs i info ≡ ok final
    → IsBelow m final
unfolding ksql_tags
ksql_tags-IsBelow m end i info final r b h = subst (IsBelow m) (ground arith) b
ksql_tags-IsBelow m (field g t fs) i info final r b h =
    let found : FieldInfo = record {
      name = (parse_tag g.ksql).0;
      index = i;
      valid = false;
      serialize_as_json = (parse_tag g.ksql).1;
    } in
    elim (Bool-cases (g.pkg_path == "")) [
      | inr hidden ↦ absurd (cc (rw hidden at h))
      | inl exported ↦ elim (Bool-cases (g.ksql == "")) [
        | inl bare ↦ ksql_tags-IsBelow m fs (suc i) info final (omega arith) b (ground arith)
        | inr tagged ↦ elim (Option-cases (lookup found.name info.by_name_map)) [
          | inl fresh ↦
              ksql_tags-IsBelow m fs (suc i) (add info found) final (omega arith)
                (add-IsBelow m info found b (omega arith)) (ground arith)
          | inr twice ↦ absurd (ground arith)
        ]
      ]
    ]

tablename_tags-IsBelow :
    (m : ℕ) (fs : Fields) (i : ℕ) (info : StructInfo)
    → i + num_field fs ≤ m
    → IsBelow m info
    → IsBelow m (tablename_tags fs i info)
unfolding tablename_tags
tablename_tags-IsBelow m end i info r b = b
tablename_tags-IsBelow m (field g t fs) i info r b =
    tablename_tags-IsBelow m fs (suc i) _ (omega arith) (elim (Bool-cases (g.tablename == "")) [
      | inl bare ↦ rw bare b
      | inr tagged ↦ rw tagged (add-IsBelow m info _ b (omega arith))
    ])

empty-IsBelow : (m : ℕ) → IsBelow m empty_info
unfolding lookup
empty-IsBelow m = record { at = λ name f h. absurd (cc h) }

nested_tags-IsBelow :
    (m : ℕ) (fs : Fields) (info final : StructInfo)
    → num_field fs ≤ m
    → IsBelow m info
    → nested_tags fs info ≡ ok final
    → IsBelow m final
unfolding nested_tags
nested_tags-IsBelow m fs info final r b h = record {
  at = λ name f found.
      ground (arith, b.at name f, (tablename_tags-IsBelow m fs 0 info (omega arith) b).at name f);
}

-- For a struct whose tags are read, plain or nested, a valid field that ByName finds has an index
-- below the number of the struct's fields, so what indexes the struct by it does not panic.
pub index-by_name_lt :
    (n : String) (fs : Fields) (info : StructInfo)
    → get_tag_names (struct n fs) ≡ ok info
    → (name : String) → (by_name info name).valid ≡ true
    → (by_name info name).index < num_field fs
unfolding get_tag_names by_name
index-by_name_lt n fs info read name v =
    let (first, e, h) = and_then-ok (ksql_tags fs 0 empty_info) (nested_tags fs) read in
    let m = num_field fs in
    let first_below = ksql_tags-IsBelow m fs 0 empty_info first (omega arith) (empty-IsBelow m) e in
    let below = nested_tags-IsBelow m fs first info (omega arith) first_below h in
    elim (Option-cases (lookup name info.by_name_map)) [
      | inl missing ↦ absurd (cc (rw missing at v))
      | inr (f, found) ↦ rw found (below.at name f found)
    ]
