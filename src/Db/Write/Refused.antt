-- ===== src/Db/Write/Refused.antt =====
-- What Insert refuses.
use ksql.Prelude.{◌≡◌, refl}
use ksql.Prelude.Result.{err, msg}
use ksql.Reflect.{Value, ref}
use ksql.World.{World}
use ksql.Table.{Table}
use ksql.Db.{Db}
use ksql.Db.Write.{Runtime, insert, not_a_struct_pointer}

-- The address of a pointer is not the address of a struct.
pub insert-refuses_pointers :
    (c : Db) (rt : Runtime) (table : Table) (v : Value) (w : World)
    → insert c rt table (ref (ref v)) w
      ≡ (err (msg "ksql: expected record to be a pointer to struct"), w)
unfolding insert not_a_struct_pointer
insert-refuses_pointers c rt table v w = refl
