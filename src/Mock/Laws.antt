-- ===== src/Mock/Laws.antt =====
-- A Mock with a fallback database.
use ksql.Prelude.{◌≡◌, refl, Option, none, some}
use ksql.Mock.{
  Provider, Mock, called, or_fallback, set_fallback_database, insert, patch, delete, update, query,
  query_one, query_chunks, exec, transaction, provider,
}

-- A function that was set, or else that of the database.
abbrev pub set_or : {F : Type 0} → Option F → F → F
set_or none f = f
set_or (some g) f = g

called-or_fallback :
    {F : Type 0} (missing f : F) (o : Option F) → called missing (or_fallback o f) ≡ set_or o f
unfolding called or_fallback
called-or_fallback missing f none = refl
called-or_fallback missing f (some g) = refl

or_fallback_twice :
    {F : Type 0} (o : Option F) (f g : F) → or_fallback (or_fallback o f) g ≡ or_fallback o f
unfolding or_fallback
or_fallback_twice none f g = refl
or_fallback_twice (some h) f g = refl

module _ {P : Type 0} (m : Mock P) (db : Provider P) where
  -- Each method of a Mock with a fallback database calls the function that was set, or else the
  -- method of the database.
  pub provider-set_fallback_database :
      (as_provider : Mock P → P)
      → provider as_provider (set_fallback_database m db) ≡ record {
        insert = set_or m.insert_fn db.insert;
        patch = set_or m.patch_fn db.patch;
        delete = set_or m.delete_fn db.delete;
        update = set_or m.update_fn db.update;
        query = set_or m.query_fn db.query;
        query_one = set_or m.query_one_fn db.query_one;
        query_chunks = set_or m.query_chunks_fn db.query_chunks;
        exec = set_or m.exec_fn db.exec;
        transaction = set_or m.transaction_fn db.transaction;
      }
  unfolding provider set_fallback_database insert patch delete update query query_one query_chunks
      exec transaction
  provider-set_fallback_database as_provider = simp called-or_fallback refl

  -- A second fallback database changes nothing.
  pub set_fallback_database-set_fallback_database :
      (other : Provider P)
      → set_fallback_database (set_fallback_database m db) other ≡ set_fallback_database m db
  unfolding set_fallback_database or_fallback
  set_fallback_database-set_fallback_database other = λ i. record {
    insert_fn = or_fallback_twice m.insert_fn db.insert other.insert i;
    patch_fn = or_fallback_twice m.patch_fn db.patch other.patch i;
    delete_fn = or_fallback_twice m.delete_fn db.delete other.delete i;
    update_fn = or_fallback_twice m.update_fn db.update other.update i;
    query_fn = or_fallback_twice m.query_fn db.query other.query i;
    query_one_fn = or_fallback_twice m.query_one_fn db.query_one other.query_one i;
    query_chunks_fn = or_fallback_twice m.query_chunks_fn db.query_chunks other.query_chunks i;
    exec_fn = or_fallback_twice m.exec_fn db.exec other.exec i;
    transaction_fn = or_fallback_twice m.transaction_fn db.transaction other.transaction i;
  }
