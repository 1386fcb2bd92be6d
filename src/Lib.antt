-- ===== src/Lib.antt =====
-- ksql, a Go library that runs SQL queries and maps their rows to structs, as definitions of what its
-- code does and theorems about them.
--
-- The client (`ksql.go`) takes a record or a slice, reads the tags of its struct type
-- (`internal/structs`), writes a statement in the dialect of the driver (`dialect.go`), hands it to an
-- adapter and scans the rows that come back into the record. Two caches stand between: the information
-- on tags by type, and the SELECT clauses by dialect and type. Package `kbuilder` writes queries on its
-- own, over the same information on tags and a cache of its own.
--
-- Prelude: what the code uses of Go and its standard library. Text and Sprintf have `strings`,
--   `strconv` and `fmt`; Dict has maps, in the order of their first insertion; Result has the three
--   ways in which a Go function ends, with a value, an error or a panic; Action has calls that change
--   a state, which comes back beside an error and a panic too.
-- Reflect: `reflect`, as types and values that the program looks into. Typing says which values have a
--   type.
-- Structs (`internal/structs/structs.go`, `internal/structs/func_parser.go`): Info is StructInfo, Tags
--   is getTagNames and DecodeAsSliceOfStructs, Cache is getCachedTagInfo, Goroutines has its steps for
--   many calls at once, ToMap is StructToMap, Func is ParseInputFunc.
-- Dialect (`dialect.go`), Table (`contracts.go`): the dialects and the tables.
-- World: the two caches and the log of the calls that reached the driver or a callback. Quiet has calls
--   that leave the log as it was, Preserves has calls that keep an invariant.
-- Sql (`ksql.go`): the writing of statements. Token is getFirstToken, Select is buildSelectQuery, Scan
--   has the arguments of Scan, Ids is normalizeIDsAsMap, and Insert, Update and Delete are the builders
--   of their names. Slots has what Select and Scan share, Select.Sound what the cache of SELECT clauses
--   may hold, Insert.Laws which attributes an INSERT carries, Insert.Written and Delete.Laws the texts of
--   these statements and the values that are sent.
-- Db (`ksql.go`): the client. Scanning is scanRows, Query has Query and QueryOne, Chunks has
--   QueryChunks, Write has Insert, Delete, Update and Patch, Transaction has Transaction and Close.
--   Invariant is what all calls keep, and the modules called Keeping and Closing show it of each.
--   Query.Meaning has Query and QueryOne as functions with no caches, Query.Typing the types of what
--   they give. Chunks.Whole, Chunks.Stopping and Chunks.Ending are about QueryChunks from its arguments
--   on, for callbacks that go on and for callbacks that refuse. Write.Inserts and Write.Reading are
--   about Insert, for drivers with LastInsertId and for those that return the ids as rows. Program is
--   code that uses a client, as trees of calls whose outcomes decide what comes next, and Provider is
--   the client as the interface of `contracts.go`.
-- Kbuilder (`kbuilder`): Where, Query and Insert, each for the struct of its name; Query.Clauses has the
--   text of a query by its clauses, Insert.Written what an INSERT has of known records.
-- Convert (`internal/structs/structs.go`): PtrConverter.
-- Ksqltest (`ksqltest/testhelpers.go`): the filling of records, slices and callbacks with rows given as
--   maps. Kstructs (`kstructs/testhelpers.go`) has the same text.
-- Slices (`slices/slices.go`): ToInterfaceSlice. Nullable (`nullable/nullable.go`): addresses of copies.
-- Mock (`mocks.go`), Json (`json.go`): the mocked provider and the attributes stored as JSON.
-- Adapters (`adapters`): Pgx is kpgx; Mysql, Sqlite3 and Sqlserver are kmysql, ksqlite3 and
--   ksqlserver, over Std, the text that the three share.
-- Examples (`examples`): Users is `repo_with_transactions` and Service is `example_service`, both over
--   any Provider; Crud and AllAdapters are `crud` and `all_adapters`, on the client.
-- InternalMocks (`internal_mocks.go`): doubles of the interfaces, for the tests of the package.
-- Testtools (`internal/testtools`): the assertions of the tests, over a testify that is a parameter;
--   Durations has the arithmetic of times, in the 64 bits of an int64.
-- Tests: concrete data and runs.
--
-- A pointer to a record is a value that holds the record, and a function that fills it returns what it
-- holds at the end. The error texts keep the words before the first argument of their format. The order
-- in which Go visits the keys of a map, and the conversion of an id to the type of its field, are
-- arguments. The adapter is a record of functions of the log, so its answers may depend on all calls
-- before; contexts are left out. The loops are recursions on the rows, the fields or the keys, and the
-- numbers written in decimal take as much fuel as the number itself, which is more than its digits.
-- Goroutines are modelled where they meet in the cache of tags; elsewhere a call runs alone.
--
-- Not modelled: the shared suite `test_adapters.go`, which needs a database for each adapter; the
-- benchmarks, which are generated code or need a database; the mocks of `example_service`, which
-- mockgen writes; and what the examples print. Of the case of letters outside ASCII, the two letters
-- whose other case is ASCII are all that is kept.
pub mod Prelude
pub mod Reflect
pub mod Structs
pub mod Testtools
pub mod Dialect
pub mod Slices
pub mod Table
pub mod World
pub mod Sql
pub mod Db
pub mod Examples
pub mod Kbuilder
pub mod Ksqltest
pub mod Kstructs
pub mod Mock
pub mod InternalMocks
pub mod Nullable
pub mod Json
pub mod Convert
pub mod Adapters
pub mod Tests
