-- ===== src/Aml/Client.antt =====
-- shkeeper/services/aml_shkeeper_client.py: what the AML sidecar answered, as a dict. The HTTP
-- request is a parameter.
use Prim.Native.String.{◌++◌ as append}
use shkeeper_io.Prelude.{ℕ, String, Option, none, some, leb, str_eq, if◌then◌else◌}
use shkeeper_io.Prelude.Json.{Value, null, text, dict, Fields, end, field}
use shkeeper_io.Prelude.Numerals.{show}

-- a response with its status, its JSON if it is any, and its text; a `RequestException`, or any
-- other exception, with its text
pub data Http : Type 0 where
  response : ℕ → Option Value → String → Http
  request_exception : String → Http
  exception : String → Http

-- what the method of the client returned or raised
pub data Answer : Type 0 where
  result : Fields → Answer
  raised : String → Answer

-- `_error`
pub error_result : String → String → String → Value → Fields
error_result status error_code error_message raw_response = field "status" (text status) (
    field "provider_status" (text "error") (
      field "error_source" (text "aml-shkeeper") (
        field "error_code" (text error_code)
          (field "error_message" (text error_message) (field "raw_response" raw_response end)))))

-- `response.json()`, or the error that stands for it
data_of : Option Value → String → Fields
unfolding error_result
data_of none body = error_result "error" "invalid_json" body (text body)
data_of (some (dict fs)) body = fs
data_of (some v) body =
    error_result "error" "invalid_json_shape" "aml-shkeeper returned non-object JSON" v

-- `data.setdefault(k, v)`
unfoldable pub set_default : String → Value → Fields → Fields
set_default k v end = field k v end
set_default k v (field j w fs) =
    let rest = set_default k v fs in if str_eq j k then field j w fs else field j w rest

mark_failed : ℕ → String → Fields → Fields
unfolding set_default show
mark_failed status_code body fs = set_default "error_message" (text body) (
    set_default "error_code" (text (append "http_" (show status_code))) (
      set_default "error_source" (text "aml-shkeeper")
        (set_default "provider_status" (text "error") fs)))

-- `_request`
unfoldable pub request_result : Http → Answer
unfolding data_of mark_failed error_result
request_result (response status_code json body) =
    if leb 400 status_code
    then result (mark_failed status_code body (data_of json body))
    else result (data_of json body)
request_result (request_exception message) =
    result (error_result "transport_error" "transport_error" message null)
request_result (exception message) = raised message
