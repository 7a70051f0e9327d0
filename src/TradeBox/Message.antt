-- ===== src/TradeBox/Message.antt =====
-- trade_box.go: the messages of the trade-box service.
use pokemon_violet.Base.{ℕ, Bool, ◌&&◌, [], ◌==◌, nat_eq, bytes_eq}
use pokemon_violet.Base.Int.{ℤ, negsuc, int_eq}
use pokemon_violet.Base.Text.{Bytes}

-- A time.Time as its Unix seconds and nanoseconds.
pub record Time : Type 0 where
  pub seconds : ℤ
  pub nanos : ℕ

-- time.Time{}, the first instant of year 1.
abbrev pub zero_time : Time
zero_time = record { seconds = negsuc 62135596799; nanos = 0 }

-- t.IsZero()
unfoldable pub is_zero : Time → Bool
is_zero t = t.seconds == zero_time.seconds && t.nanos == 0

pub record TimberTradeBox : Type 0 where
  pub name : Bytes
  pub state : ℕ  -- uint64
  pub timestamp : Time
  pub payload : Bytes
  pub signature : Bytes

abbrev pub zero_box : TimberTradeBox
zero_box = record { name = []; state = 0; timestamp = zero_time; payload = []; signature = [] }

pub record CreateTradeBoxRequest : Type 0 where
  pub parent : Bytes
  pub trade_box : TimberTradeBox
  pub trade_box_id : Bytes

abbrev pub zero_request : CreateTradeBoxRequest
zero_request = record { parent = []; trade_box = zero_box; trade_box_id = [] }

abbrev pub trade_box_trading : ℕ
trade_box_trading = 1

abbrev pub trade_box_traded : ℕ
trade_box_traded = 2

abbrev pub max_trade_box_request : ℕ
max_trade_box_request = 131072

abbrev pub max_trade_box_payload : ℕ
max_trade_box_payload = 65536

abbrev pub max_trade_box_signature : ℕ
max_trade_box_signature = 1024
