-- ===== src/Documents/Message.antt =====
-- The messages of gamesync that the document handlers read and write, and the stored bindings of
-- user sessions. A oneof that is not set is a constructor of its own.
use pokemon_violet.Base.{Bool, Option, List}
use pokemon_violet.Base.Int.{ℤ}
use pokemon_violet.Base.Text.{Bytes}
use pokemon_violet.Session.Message.{MapValue, Value}
use pokemon_violet.TradeBox.Message.{Time}

pub record Document : Type 0 where
  pub name : Bytes
  pub fields : MapValue
  pub create_time : Time
  pub update_time : Time

pub data Precondition : Type 0 where
  exists_condition : Bool → Precondition
  update_time_condition : Option Time → Precondition
  empty_condition : Precondition

-- The enum of SetServerValue is its number; REQUEST_TIME is 1.
pub data TransformType : Type 0 where
  load_global_value store_global_value clear_global_value : Bytes → TransformType
  increment_by maximum minimum : Option Value → TransformType
  set_server_value : ℤ → TransformType
  empty_transform : TransformType

pub record FieldTransform : Type 0 where
  pub field_path : Bytes
  pub transform_type : TransformType

-- Name, fields (none is nil), mask and precondition of an update; name and fields of a merge.
pub data WriteOperation : Type 0 where
  update_document :
      Bytes → Option MapValue → Option (List Bytes) → Option Precondition → WriteOperation
  merge_document : Bytes → Option MapValue → WriteOperation
  transform_document : Bytes → List FieldTransform → WriteOperation
  delete_document : Bytes → Option Precondition → WriteOperation
  empty_write : WriteOperation

pub data WriteResult : Type 0 where
  update_result delete_result : WriteResult
  transform_result : List Value → WriteResult

pub record Deferment : Type 0 where
  pub name : Bytes
  pub write_operations : List WriteOperation

pub data DefermentOperation : Type 0 where
  delete_deferment : Bytes → DefermentOperation
  update_deferment : Option Deferment → DefermentOperation
  empty_deferment : DefermentOperation

pub record GamesyncSession : Type 0 where
  pub uid : Bytes
  pub app_id : Bytes
  pub ip : Bytes
  pub game_session : Bytes
  pub user_session : Bytes
  pub team : Bytes
  pub sequence : ℤ
  pub connection : ℤ
  pub attributes : MapValue
  pub latency_json : Bytes
  pub created_at : Option Time
