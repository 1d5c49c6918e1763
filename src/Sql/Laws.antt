-- ===== src/Sql/Laws.antt =====
-- One statement outside a transaction, by what it reports.
use wallet_service.Base.{◌≡◌, ◌≢◌, sym, subst, ◌⊎◌, inl, inr, false, arith, All}
use wallet_service.Sql.{Sql, is_failed, lost, Conn, run_sql}

-- No answer will be lost.
abbrev pub IsHonest : {T : Type 0} → Conn T → Type 0
IsHonest c = All (λ d. d ≢ lost) c.faults

module _ {T A : Type 0} (stmt : T → Sql A × T) (c : Conn T) where
  -- What is not a failure is the statement's own report, and the tables are as the statement left
  -- them.
  pub run_sql_done :
      is_failed (run_sql stmt c).0 ≡ false
      → ((run_sql stmt c).0 ≡ (stmt c.tables).0) × ((run_sql stmt c).1.tables ≡ (stmt c.tables).1)
  unfolding run_sql
  run_sql_done h = ground arith

  -- In any case the statement has run once or not at all.
  pub run_sql_once :
      ((run_sql stmt c).1.tables ≡ c.tables) ⊎ ((run_sql stmt c).1.tables ≡ (stmt c.tables).1)
  unfolding run_sql
  run_sql_once = ground arith

  -- So a property that the statement keeps is kept, however the network behaves.
  pub run_sql_keeps :
      (P : T → Type 0) → P c.tables → P (stmt c.tables).1 → P (run_sql stmt c).1.tables
  run_sql_keeps P before after = elim run_sql_once [
    | inl e ↦ subst P (sym e) before
    | inr e ↦ subst P (sym e) after
  ]
