-- ===== src/Api/Response.antt =====
-- src/api/v1/APIv1.h and APIv1.cpp: requests and responses.
use contentv.Prelude.{ℕ, String}
use contentv.Core.QueryGroup.{JsonCpp}
use contentv.Api.Parsing.{Found}

pub record ApiRequest : Type 0 where
  pub headers : Found
  pub body : String
  pub params : Found

pub record ApiResponse : Type 0 where
  pub body : String
  pub content_type : String
  pub status : ℕ

abbrev pub content_type_json : String
content_type_json = "application/json"

-- `set(_status, _body)`
unfoldable pub set_response : ℕ → String → ApiResponse
set_response code text = record { body = text; content_type = content_type_json; status = code }

module _ (json : JsonCpp) where
  open json use {null, string, set, write}

  -- A JSON object with a status and a message.
  unfoldable pub message_body : String → String → String
  message_body word mess = write (set "message" (string mess) (set "status" (string word) null))

  unfoldable pub access_denied : String → ApiResponse
  unfolding set_response message_body
  access_denied mess = set_response 403 (message_body "denied" mess)

  unfoldable pub bad_request : String → ApiResponse
  unfolding set_response message_body
  bad_request mess = set_response 400 (message_body "bad_request" mess)

  unfoldable pub internal_error : String → ApiResponse
  unfolding set_response message_body
  internal_error mess = set_response 500 (message_body "internal_error" mess)

  -- `js["status"] = "ok"`, alone and with the result of a call.
  unfoldable pub ok_response : ApiResponse
  unfolding set_response
  ok_response = set_response 200 (write (set "status" (string "ok") null))

  unfoldable pub ok_result : json.Value → ApiResponse
  unfolding set_response
  ok_result v = set_response 200 (write (set "result" v (set "status" (string "ok") null)))
