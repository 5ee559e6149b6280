-- ===== src/Entities/Tx.antt =====
-- App/Entities/Tx.ts and App/Types/TransactionLog.ts, over what Joi's schemas answer.
use block_listener.Base.{ℕ, String, Bool, false, List, Option, none, some, is_some}
use block_listener.Base.Task.{Outcome, returns, throws, Thrown}
use block_listener.Rabbitmq.Objects.{Object}
use block_listener.Values.{BlockchainId, TxType}

pub record TransactionLog : Type 0 where
  pub tx_hash : String
  pub name : String
  pub signature : String
  pub topic : String
  pub address : String
  pub args : Object String

pub record SmartContractCall : Type 0 where
  pub method : String
  pub signature : String
  pub args : Object String

-- `input` is the field `data`.
pub record RawTx : Type 0 where
  pub hash : String
  pub block_height : ℕ
  pub timestamp : ℕ
  pub input : String
  pub to : String
  pub from : String
  pub value : String
  pub logs : List TransactionLog
  pub smart_contract_call : Option SmartContractCall

pub record EthTransferData : Type 0 where
  pub from : String
  pub to : String
  pub value : String
  pub usd_value : String

pub record SwapSide : Type 0 where
  pub token : String
  pub symbol : String
  pub amount : String

pub record DexSwapData : Type 0 where
  pub native_value : String
  pub usd_value : String
  pub from : String
  pub to : String
  pub calculated_native_value : Option Bool
  pub calculated_usd_value : Option Bool
  pub input : SwapSide
  pub output : SwapSide

-- A field that is `undefined` is none.
pub record TokenTransferData : Type 0 where
  pub native_value : String
  pub usd_value : String
  pub from : Option String
  pub to : Option String
  pub amount : String
  pub token_symbol : String
  pub token_address : String

-- The field `data`, by the schema that it is made for.
pub data TxData : Type 0 where
  no_data : TxData
  empty_data : TxData
  eth_transfer_data : EthTransferData → TxData
  dex_swap_data : DexSwapData → TxData
  token_transfer_data : TokenTransferData → TxData

pub record TxProps : Type 0 where
  pub blockchain : BlockchainId
  pub hash : String
  pub type : TxType
  pub raw : RawTx
  pub content : TxData

-- The `value` of `DexSwapDataSchema.validate` and of `EthTransferSchema.validate`, whether or not
-- they report an error, and `validateOrThrowError` with `TxSchema`.
pub record TxSchemas : Type 0 where
  pub dex_swap_value : TxData → TxData
  pub eth_transfer_value : TxData → TxData
  pub tx_value : TxProps → Option TxProps

abbrev pub not_supported : Thrown
not_supported = record {
  is_direct_to_dead = false;
  name = "Error";
  message = "Not supported tx type";
  stack = "";
}

abbrev pub validation_error : Thrown
validation_error = record {
  is_direct_to_dead = false;
  name = "ValidationError";
  message = "";
  stack = "";
}

abbrev pub is_smart_contract_call : TxProps → Bool
is_smart_contract_call tx = is_some tx.raw.smart_contract_call

-- A `Tx` is one object that its processors write to: the state of the outcome is the object after
-- the call. The type is set before the switch refuses it.
unfoldable pub set_type_and_data :
    TxSchemas → TxType → TxData → TxProps → Outcome TxProps (Unit {0})
set_type_and_data schemas TxType.dex_swap d tx =
    returns tt (record tx { type = TxType.dex_swap; content = schemas.dex_swap_value d })
set_type_and_data schemas TxType.eth_transfer d tx =
    returns tt (record tx { type = TxType.eth_transfer; content = schemas.eth_transfer_value d })
set_type_and_data schemas TxType.unknown d tx =
    throws not_supported (record tx { type = TxType.unknown })
set_type_and_data schemas TxType.dex_swap_uniswap_v3 d tx =
    throws not_supported (record tx { type = TxType.dex_swap_uniswap_v3 })

-- `Tx.create`
unfoldable pub create : {S : Type 0} → TxSchemas → TxProps → S → Outcome S TxProps
create schemas props s = elim (schemas.tx_value props) [
  | none ↦ throws validation_error s
  | some value ↦ returns value s
]
