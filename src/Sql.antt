-- ===== src/Sql.antt =====
-- A Postgres connection as pgx shows it. A statement is a function on the tables; what the network
-- does to each round trip is an input. The drivers themselves are not modelled.
pub mod Laws
use wallet_service.Base.{Bool, true, false, List, [], ◌∷◌}

-- The SQLSTATE codes that the services tell apart: 23505, and all others.
pub data SqlState : Type 0 where
  unique_violation other_failure : SqlState

-- What `Query…Scan` and `Exec` report.
pub data Sql (A : Type 0) : Type 0 where
  row : A → Sql A
  no_rows : Sql A
  failed : SqlState → Sql A

abbrev pub is_row : {A : Type 0} → Sql A → Bool
is_row (row _) = true
is_row no_rows = false
is_row (failed _) = false

abbrev pub is_failed : {A : Type 0} → Sql A → Bool
is_failed (row _) = false
is_failed no_rows = false
is_failed (failed _) = true

-- A round trip is answered; or it fails before the server acts; or after, and the answer is lost.
pub data Delivery : Type 0 where
  answered refused lost : Delivery

-- The server's tables, and what will happen to the coming round trips (answered, past the end).
pub record Conn (T : Type 0) : Type 0 where
  pub tables : T
  pub faults : List Delivery

module _ {T : Type 0} where
  abbrev pub pop : List Delivery → T → Delivery × Conn T
  pop [] t = (answered, record { tables = t; faults = [] })
  pop (d ∷ ds) t = (d, record { tables = t; faults = ds })

  unfoldable pub next_delivery : Conn T → Delivery × Conn T
  next_delivery c = pop c.faults c.tables

  abbrev pub deliver : {A : Type 0} → Delivery × Conn T → Sql A × T → Sql A × Conn T
  deliver (answered, c) (r, t) = (r, record c { tables = t })
  deliver (refused, c) (r, t) = (failed other_failure, c)
  deliver (lost, c) (r, t) = (failed other_failure, record c { tables = t })

  -- A statement outside a transaction.
  unfoldable pub run_sql : {A : Type 0} → (T → Sql A × T) → Conn T → Sql A × Conn T
  unfolding next_delivery
  run_sql stmt c = deliver (next_delivery c) (stmt c.tables)

  abbrev pub deliver_tx : {A : Type 0} → Delivery × Conn T → T → Sql A × T → Sql A × T × Conn T
  deliver_tx (answered, c) _ (r, t) = (r, t, c)
  deliver_tx (refused, c) t _ = (failed other_failure, t, c)
  deliver_tx (lost, c) t _ = (failed other_failure, t, c)

  -- A statement inside a transaction changes the transaction's own view of the tables.
  unfoldable pub run_in_tx : {A : Type 0} → (T → Sql A × T) → T → Conn T → Sql A × T × Conn T
  unfolding next_delivery
  run_in_tx stmt t c = deliver_tx (next_delivery c) t (stmt t)

  abbrev pub deliver_commit : Delivery × Conn T → T → Sql Unit × Conn T
  deliver_commit (answered, c) t = (row tt, record c { tables = t })
  deliver_commit (refused, c) t = (failed other_failure, c)
  deliver_commit (lost, c) t = (failed other_failure, record c { tables = t })

  -- COMMIT makes the transaction's view the tables; a lost answer leaves that unknown to the caller.
  unfoldable pub commit : T → Conn T → Sql Unit × Conn T
  unfolding next_delivery
  commit t c = deliver_commit (next_delivery c) t
