-- ===== src/Handler/Generators.antt =====
-- How handler.py gets an asynchronous generator from a handler, and how it formats exceptions.
use camera_ui_rpc.Base.{String, List}
use camera_ui_rpc.Codec.Values.{Value, str, dict, field, no_fields, text_key}
use camera_ui_rpc.Errors.{RpcException, to_dict}

-- a raised exception: one that is made for the wire, or any other by its text
pub data Raised : Type 0 where
  rpc_exception : RpcException → Raised
  other_exception : String → Raised

-- what a generator does at a request for its next value
pub data Produced : Type 0 where
  yielded : Value → Produced
  raised : Raised → Produced

-- what `aclose` of an asynchronous iterator does, if it has one
pub data Closing : Type 0 where
  no_aclose closes : Closing
  close_raises : Raised → Closing

-- what it still produces; behind that it stops
pub record Generator : Type 0 where
  pub produced : List Produced
  pub closing : Closing

-- what a function returns: `__aiter__`, `__iter__`, or neither, or an exception
pub data Returned : Type 0 where
  async_iterable : Generator → Returned
  iterable : List Produced → Returned
  no_iterable : Returned
  call_raises : Raised → Returned

pub data Handler : Type 0 where
  async_generator : Generator → Handler
  sync_generator : List Produced → Handler
  async_function plain_function : Returned → Handler

pub data Got : Type 0 where
  generator : Generator → Got
  failed : Raised → Got

abbrev pub internal_error : String → Raised
internal_error message =
    rpc_exception
      (record { code = str "INTERNAL_ERROR"; message = str message; payload = Value.null })

-- `async_wrapper`
abbrev pub wrapped : List Produced → Generator
wrapped produced = record { produced = produced; closing = closes }

unfoldable pub generator_of_result : String → Returned → Got
generator_of_result purpose (async_iterable g) = generator g
generator_of_result purpose (iterable produced) = generator (wrapped produced)
generator_of_result purpose no_iterable = failed (internal_error purpose)
generator_of_result purpose (call_raises e) = failed e

unfoldable pub get_generator : String → Handler → Got
unfolding generator_of_result
get_generator purpose (async_generator g) = generator g
get_generator purpose (sync_generator produced) = generator (wrapped produced)
get_generator purpose (async_function result) = generator_of_result purpose result
get_generator purpose (plain_function result) = generator_of_result purpose result

-- `format_error_dict`
unfoldable pub format_error_dict : Raised → Value
unfolding to_dict
format_error_dict (rpc_exception e) = to_dict e
format_error_dict (other_exception text) = dict (
    field (text_key "code") (str "INTERNAL_ERROR")
      (field (text_key "message") (str text) no_fields))

-- the error of a stream message
unfoldable pub stream_error : Raised → Value
unfolding to_dict
stream_error (rpc_exception e) = to_dict e
stream_error (other_exception text) =
    dict (
      field (text_key "code") (str "STREAM_ERROR")
        (field (text_key "message") (str text) no_fields))
