-- ===== src/Structs/Info.antt =====
-- StructInfo and FieldInfo of internal/structs/structs.go: a struct's tags by index and by name.
use ksql.Prelude.{
  ℕ, String, ◌≡◌, refl, Bool, true, false, Option, none, some, List, [], ◌∷◌, arith, eqb, length,
  if◌then◌else◌,
}
use ksql.Prelude.Dict.{Dict, lookup, insert}
use ksql.Prelude.Text.{to_lower}

pub record FieldInfo : Type 0 where
  pub name : String
  pub index : ℕ
  pub valid : Bool
  pub serialize_as_json : Bool

-- The `map[int]*FieldInfo`.
abbrev pub Indexed : Type 0
Indexed = List (ℕ × FieldInfo)

unfoldable pub find_index : ℕ → Indexed → Option FieldInfo
find_index i [] = none
find_index i ((j, f) ∷ m) = if eqb j i then some f else find_index i m

unfoldable pub set_index : ℕ → FieldInfo → Indexed → Indexed
set_index i f [] = (i, f) ∷ []
set_index i f ((j, g) ∷ m) = if eqb j i then (i, f) ∷ m else (j, g) ∷ set_index i f m

pub find_index-set_index :
    (i j : ℕ) (f : FieldInfo) (m : Indexed)
    → find_index j (set_index i f m) ≡ (if eqb i j then some f else find_index j m)
unfolding find_index set_index
find_index-set_index i j f [] = refl
find_index-set_index i j f ((k, g) ∷ m) = ground (arith, find_index-set_index i j f m)

pub record StructInfo : Type 0 where
  pub is_nested_struct : Bool
  pub by_index_map : Indexed
  pub by_name_map : Dict FieldInfo

-- `FieldInfo{}`
abbrev pub invalid_field : FieldInfo
invalid_field = record { name = ""; index = 0; valid = false; serialize_as_json = false }

abbrev pub or_invalid : Option FieldInfo → FieldInfo
or_invalid none = invalid_field
or_invalid (some f) = f

unfoldable pub by_index : StructInfo → ℕ → FieldInfo
by_index info i = or_invalid (find_index i info.by_index_map)

unfoldable pub by_name : StructInfo → String → FieldInfo
by_name info name = or_invalid (lookup name info.by_name_map)

-- insert unless the key is there
unfoldable pub insert_new : String → FieldInfo → Dict FieldInfo → Dict FieldInfo
insert_new k f m = elim (lookup k m) [ none ↦ insert k f m | some g ↦ m ]

unfoldable pub add : StructInfo → FieldInfo → StructInfo
unfolding insert_new
add info given =
    let f = record given { valid = true } in
    record info {
      by_index_map = set_index f.index f info.by_index_map;
      by_name_map = insert_new (to_lower f.name) f (insert f.name f info.by_name_map);
    }

unfoldable pub num_fields : StructInfo → ℕ
num_fields info = length info.by_index_map

abbrev pub empty_info : StructInfo
empty_info = record { is_nested_struct = false; by_index_map = []; by_name_map = [] }
