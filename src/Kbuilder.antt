-- ===== src/Kbuilder.antt =====
-- kbuilder/kbuilder.go: the builder that holds a dialect.
pub mod Where
pub mod Query
pub mod Insert
use ksql.Prelude.{String, List}
use ksql.Prelude.Result.{Result, ok, err, panic}
use ksql.Prelude.Action.{Action}
use ksql.Dialect.{Dialect, get_driver_dialect}
use ksql.Reflect.{Value}
use ksql.Kbuilder.Query.{Caches}

pub record Builder : Type 0 where
  pub dialect : Dialect

-- The interface queryBuilder, as its method.
abbrev pub QueryBuilder : Type 0
QueryBuilder = Dialect → Action Caches (String × List Value)

with_dialect : Result Dialect → Result Builder
with_dialect (ok dialect) = ok (record { dialect = dialect })
with_dialect (err e) = err e
with_dialect (panic p) = panic p

pub new : String → Result Builder
unfolding with_dialect
new driver = with_dialect (get_driver_dialect driver)

pub build : Builder → QueryBuilder → Action Caches (String × List Value)
build builder query = query builder.dialect
