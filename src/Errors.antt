-- ===== src/Errors.antt =====
-- errors.py: the exception that remote failures are reported with, and its form on the wire.
use camera_ui_rpc.Base.{◌≡◌, refl, Option, none, some, String}
use camera_ui_rpc.Base.Result.{Result, ok, err, key_error, type_error, ◌>>=◌, or_raise}
use camera_ui_rpc.Codec.Values.{
  Value, null, str, dict, Fields, field, no_fields, field_of, text_key,
}

-- `code`, `message` and `data`
pub record RpcException : Type 0 where
  pub code : Value
  pub message : Value
  pub payload : Value

unfoldable pub to_dict : RpcException → Value
to_dict e = dict (
    field (text_key "code") e.code
      (field (text_key "message") e.message (field (text_key "data") e.payload no_fields)))

abbrev pub or_null : Option Value → Value
or_null none = null
or_null (some value) = value

-- `error["code"]`, `error["message"]` and `error.get("data")`
unfoldable pub read_error : Fields → Result RpcException
unfolding field_of
read_error fs = do
  code ← or_raise (field_of "code" fs) key_error
  message ← or_raise (field_of "message" fs) key_error
  ok (record { code = code; message = message; payload = or_null (field_of "data" fs) })

-- What is no dictionary cannot be read by a text.
unfoldable pub from_dict : Value → Result RpcException
unfolding read_error
from_dict (dict fs) = read_error fs
from_dict value = err type_error

abbrev pub or_default : Option Value → String → Value
or_default none default = str default
or_default (some value) default = value

unfoldable pub create_error_from_dict : Fields → RpcException
unfolding field_of
create_error_from_dict fs = record {
  code = or_default (field_of "code" fs) "INTERNAL_ERROR";
  message = or_default (field_of "message" fs) "Unknown error";
  payload = or_null (field_of "data" fs);
}

-- What an exception puts on the wire is read back as that exception.
pub from_dict-to_dict : (e : RpcException) → from_dict (to_dict e) ≡ ok e
unfolding from_dict to_dict
from_dict-to_dict e = refl
