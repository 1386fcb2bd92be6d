-- ===== src/Db/Provider.antt =====
-- The client as a Provider, the interface of contracts.go, for the code that uses either.
use ksql.Mock.{Provider}
use ksql.Db.{Db, exec_statement}
use ksql.Db.Query.{query, query_one}
use ksql.Db.Chunks.{query_chunks}
use ksql.Db.Write.{Runtime, insert, patch, update, delete}
use ksql.Db.Transaction.{transaction}

unfoldable pub provider_of : Runtime → Db → Provider Db
provider_of rt c = record {
  insert = insert c rt;
  patch = patch c rt;
  delete = delete c;
  update = update c rt;
  query = query c;
  query_one = query_one c;
  query_chunks = query_chunks c;
  exec = exec_statement c;
  transaction = transaction c;
}
