-- ===== src/Structs/Tags/Laws.antt =====
-- What getTagNames returns, for structs with `ksql` tags.
use ksql.Prelude.{
  ℕ, suc, ◌<◌, String, ◌≡◌, refl, inl, inr, true, false, Option, none, some, ◌==◌, eqb, eq_iff,
  if◌then◌else◌, arith, Option-cases, Bool-cases,
}
use mathlib.Core.Path.{subst}
use ksql.Prelude.Dict.{lookup, insert, lookup-insert}
use ksql.Prelude.Text.{to_lower}
use ksql.Prelude.Result.{ok}
use ksql.Reflect.{Fields, FieldHeader, struct, end, field}
use ksql.Structs.Info.{
  StructInfo, FieldInfo, find_index, find_index-set_index, by_index, by_name, insert_new, add,
  empty_info, or_invalid,
}
use ksql.Structs.Tags.{parse_tag, ksql_tags, nested_tags, get_tag_names}

-- What the header of a field declares about the column that stands at its index.
abbrev pub declare : FieldHeader → ℕ → Option FieldInfo
declare h i =
    if h.ksql == ""
    then none
    else some (record {
      name = (parse_tag h.ksql).0;
      index = i;
      valid = true;
      serialize_as_json = (parse_tag h.ksql).1;
    })

-- What the struct declares at index `j`, where its fields are numbered from `i`.
abbrev pub declared : Fields → ℕ → ℕ → Option FieldInfo
declared end i j = none
declared (field h t fs) i j = if eqb i j then declare h i else declared fs (suc i) j

abbrev or_else : Option FieldInfo → Option FieldInfo → Option FieldInfo
or_else none b = b
or_else (some a) b = some a

declared_below : (fs : Fields) (i j : ℕ) → j < i → declared fs i j ≡ none
declared_below end i j h = refl
declared_below (field g t fs) i j h = ground (arith, declared_below fs (suc i) j)

find_index-add :
    (j : ℕ) (info : StructInfo) (f : FieldInfo)
    → find_index j (add info f).by_index_map
      ≡ (if eqb f.index j then some (record f { valid = true }) else find_index j info.by_index_map)
unfolding add
find_index-add j info f =
    find_index-set_index f.index j (record f { valid = true }) info.by_index_map

find_index-ksql_tags :
    (fs : Fields) (i j : ℕ) (info final : StructInfo)
    → ksql_tags fs i info ≡ ok final
    → find_index j final.by_index_map ≡ or_else (declared fs i j) (find_index j info.by_index_map)
unfolding ksql_tags
find_index-ksql_tags end i j info final h = ground arith
find_index-ksql_tags (field g t fs) i j info final h =
    let found : FieldInfo = record {
      name = (parse_tag g.ksql).0;
      index = i;
      valid = false;
      serialize_as_json = (parse_tag g.ksql).1;
    } in
    ground (
      arith,
      declared_below fs (suc i) j,
      find_index-ksql_tags fs (suc i) j info final,
      find_index-ksql_tags fs (suc i) j (add info found) final,
      find_index-add j info found,
    )

-- Every field that is found by its index is found by its name.
ok-injective {ℓ} : {A : Type ℓ} {a b : A} → ok a ≡ ok b → a ≡ b
ok-injective h = cc

pub record IsCoherent (info : StructInfo) : Type 0 where
  pub at :
      (i : ℕ) (f : FieldInfo)
      → find_index i info.by_index_map ≡ some f
      → (f.valid ≡ true) × (f.index ≡ i) × (lookup f.name info.by_name_map ≡ some f)

lookup-insert_new :
    (k j : String) (f g : FieldInfo) (info : StructInfo)
    → lookup j info.by_name_map ≡ some g
    → lookup j (insert_new k f info.by_name_map) ≡ some g
unfolding insert_new
lookup-insert_new k j f g info h = ground (arith, lookup-insert k j f info.by_name_map, eq_iff k j)

add-IsCoherent :
    (info : StructInfo) (f : FieldInfo)
    → IsCoherent info
    → lookup f.name info.by_name_map ≡ none
    → IsCoherent (add info f)
unfolding add insert_new
add-IsCoherent info f c fresh = record {
  at = λ i g h. ground (
    arith,
    find_index-set_index f.index i (record f { valid = true }) info.by_index_map,
    c.at i g,
    lookup-insert f.name g.name (record f { valid = true }) info.by_name_map,
    lookup-insert (to_lower f.name) g.name (record f { valid = true })
        (insert f.name (record f { valid = true }) info.by_name_map),
    eq_iff f.name g.name,
    eq_iff (to_lower f.name) g.name,
  );
}

ksql_tags-IsCoherent :
    (fs : Fields) (i : ℕ) (info final : StructInfo)
    → IsCoherent info
    → ksql_tags fs i info ≡ ok final
    → IsCoherent final
unfolding ksql_tags
ksql_tags-IsCoherent end i info final c h = subst IsCoherent (ok-injective h) c
ksql_tags-IsCoherent (field g t fs) i info final c h =
    let found : FieldInfo = record {
      name = (parse_tag g.ksql).0;
      index = i;
      valid = false;
      serialize_as_json = (parse_tag g.ksql).1;
    } in
    elim (Bool-cases (g.pkg_path == "")) [
      | inr hidden ↦ absurd (cc (rw hidden at h))
      | inl exported ↦ elim (Bool-cases (g.ksql == "")) [
        | inl bare ↦ ksql_tags-IsCoherent fs (suc i) info final c (ground arith)
        | inr tagged ↦ elim (Option-cases (lookup found.name info.by_name_map)) [
          | inl fresh ↦
              ksql_tags-IsCoherent fs (suc i) (add info found) final
                (add-IsCoherent info found c fresh) (ground arith)
          | inr twice ↦ absurd (ground arith)
        ]
      ]
    ]

empty-IsCoherent : IsCoherent empty_info
unfolding find_index
empty-IsCoherent = record { at = λ i f h. cc }

-- The result of the first loop, where it is what the whole returns.
from_ksql_tags :
    (n : String) (fs : Fields) (info : StructInfo)
    → get_tag_names (struct n fs) ≡ ok info
    → info.is_nested_struct ≡ false
    → ksql_tags fs 0 empty_info ≡ ok info
unfolding get_tag_names nested_tags
from_ksql_tags n fs info h plain = ground arith

module _ (n : String) (fs : Fields) (info : StructInfo)
    (read : get_tag_names (struct n fs) ≡ ok info) (plain : info.is_nested_struct ≡ false) where
  coherent : IsCoherent info
  coherent =
      ksql_tags-IsCoherent fs 0 empty_info info empty-IsCoherent
        (from_ksql_tags n fs info read plain)

  -- If a struct's `ksql` tags are read without an error, ByIndex answers for every index with the
  -- name and the JSON flag in the tag of the field there, and with an invalid field where there is
  -- no tag.
  pub by_index-get_tag_names : (j : ℕ) → by_index info j ≡ or_invalid (declared fs 0 j)
  unfolding by_index find_index
  by_index-get_tag_names j =
      ground
        (arith, find_index-ksql_tags fs 0 j empty_info info (from_ksql_tags n fs info read plain))

  -- If a struct's `ksql` tags are read without an error, ByName of the name of a valid field that
  -- ByIndex finds is that same field.
  pub by_name-by_index :
      (j : ℕ)
      → (by_index info j).valid ≡ true
      → by_name info (by_index info j).name ≡ by_index info j
  unfolding by_index by_name
  by_name-by_index j v = elim (Option-cases (find_index j info.by_index_map)) [
    | inl missing ↦ absurd (cc (rw missing at v))
    | inr (f, found) ↦ rw found (rw ((coherent.at j f found).2))
  ]

  -- If a struct's `ksql` tags are read without an error, two fields whose tags have one name are
  -- one field.
  pub declared_inj :
      (i j : ℕ) (f g : FieldInfo)
      → declared fs 0 i ≡ some f
      → declared fs 0 j ≡ some g
      → f.name ≡ g.name
      → i ≡ j
  unfolding find_index
  declared_inj i j f g p q same =
      let e = from_ksql_tags n fs info read plain in
      ground (
        arith,
        find_index-ksql_tags fs 0 i empty_info info e,
        find_index-ksql_tags fs 0 j empty_info info e,
        coherent.at i f,
        coherent.at j g,
      )
