-- ===== src/Model/Batch.antt =====
-- src/model.rs: the answer to a range request.
use tabulark.Base.{ℕ, Bool, List}
use tabulark.Text.{Bytes}
use tabulark.Model.Range.{RangeRequest}
use tabulark.Model.Strings.{StringColumnBatch}

pub record TableBatch : Type 0 where
  pub table_id : Bytes
  pub revision : ℕ
  pub schema_version : ℕ
  pub range : RangeRequest
  pub complete : Bool
  pub columns : List StringColumnBatch
