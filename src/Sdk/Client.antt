-- ===== src/Sdk/Client.antt =====
-- sdk/client.go and types.go: the requests of the client and what it reads from the answers. `ask`
-- sends a request: its answer, or `none` where the server is not reached, is a parameter and may
-- change the world. `parses` tells whether `http.NewRequest` takes a URL; the `decode` parameters are
-- what JSON makes of a body.
use Prim.Native.String.{String}
use gitvm.Base.{
  ℕ, Bool, Option, none, some, List, [], Result, ok, err, ℤ, pos, concat, leb, if◌then◌else◌, ◌==◌,
  string_comparable, is_positive,
}
use gitvm.Base.Table.{Table, lookup, insert}

-- The values of the fields of an object. The numbers are ints, as those of the server are.
pub data Json : Type 0 where
  text : String → Json
  number : ℤ → Json
  texts : Table String String → Json
  other : Json

abbrev pub Fields : Type 0
Fields = Table String Json

pub data Payload : Type 0 where
  no_payload : Payload
  json : Fields → Payload
  bytes : String → Payload

-- A header that is not set is "".
pub record HttpRequest : Type 0 where
  pub method : String
  pub url : String
  pub content_type : String
  pub x_api_key : String
  pub payload : Payload

pub record HttpAnswer : Type 0 where
  pub status : ℕ
  pub body : String

pub record Client : Type 0 where
  pub base_url : String
  pub api_key : String

abbrev pub new_client : String → String → Client
new_client server_url api_key = record { base_url = server_url; api_key = api_key }

-- The errors, with what their texts are built from.
pub data ClientError : Type 0 where
  bad_request not_decoded : ClientError
  not_sent : String → String → ClientError
  returned : String → String → ℕ → String → ClientError

pub record ExecuteOptions : Type 0 where
  pub cwd : String
  pub env : Option (Table String String)
  pub timeout : ℤ

pub record ExecutionResult : Type 0 where
  pub exit_code : ℤ
  pub stdout : String
  pub stderr : String

unfoldable pub content_type_of : String → Payload → String
content_type_of method no_payload = ""
content_type_of method (json fields) = if method == "GET" then "" else "application/json"
content_type_of method (bytes content) = if method == "GET" then "" else "application/json"

unfoldable pub request_of : Client → String → String → Payload → HttpRequest
unfolding content_type_of
request_of c method path payload = record {
  method = method;
  url = concat c.base_url path;
  content_type = content_type_of method payload;
  x_api_key = c.api_key;
  payload = payload;
}

unfoldable pub checked : String → String → Option HttpAnswer → Result ClientError HttpAnswer
checked method path none = err (not_sent method path)
checked method path (some a) =
    if leb 400 a.status then err (returned method path a.status a.body) else ok a

unfoldable pub with_text : String → String → Fields → Fields
unfolding insert
with_text name s fields = if s == "" then fields else insert name (text s) fields

unfoldable pub with_positive : String → ℤ → Fields → Fields
unfolding insert
with_positive name n fields = if is_positive n then insert name (number n) fields else fields

unfoldable pub with_texts : String → Option (Table String String) → Fields → Fields
unfolding insert
with_texts name none fields = fields
with_texts name (some t) fields = insert name (texts t) fields

unfoldable pub exec_body : String → Option ExecuteOptions → Fields
unfolding with_text with_positive with_texts insert
exec_body command none = insert "command" (text command) []
exec_body command (some opts) =
    with_positive "timeout" opts.timeout
      (with_texts "env" opts.env (with_text "cwd" opts.cwd (insert "command" (text command) [])))

-- `v, ok := m[name].(string)`, and "" without it
unfoldable pub text_at : String → Fields → Option String
text_at name fields = elim (lookup name fields) [ some (text s) ↦ some s | _ ↦ none ]

abbrev pub text_or : String → Option String → String
text_or default none = default
text_or default (some s) = s

unfoldable pub number_at : String → Fields → ℤ
number_at name fields = elim (lookup name fields) [ some (number n) ↦ n | _ ↦ pos 0 ]

unfoldable pub execution_result : Fields → ExecutionResult
unfolding text_at number_at
execution_result fields = record {
  exit_code = number_at "exitCode" fields;
  stdout = text_or "" (text_at "stdout" fields);
  stderr = text_or "" (text_at "stderr" fields);
}

abbrev pub decoded :
    {A : Type 0} → (String → Option A) → Result ClientError HttpAnswer → Result ClientError A
decoded decode (err e) = err e
decoded decode (ok a) = elim (decode a.body) [ none ↦ err not_decoded | some v ↦ ok v ]

abbrev pub mapped : {A B : Type 0} → (A → B) → Result ClientError A → Result ClientError B
mapped f (err e) = err e
mapped f (ok a) = ok (f a)

module _ {W : Type 0} (parses : String → Bool) (ask : HttpRequest → W → Option HttpAnswer × W) where
  unfoldable pub do_request :
      Client → String → String → Payload → W → Result ClientError HttpAnswer × W
  unfolding request_of checked
  do_request c method path payload w =
      let (a, w') = ask (request_of c method path payload) w in
      if parses (concat c.base_url path) then (checked method path a, w') else (err bad_request, w)

  unfoldable pub post_json :
      (String → Option Fields) → Client → String → Fields → W → Result ClientError Fields × W
  unfolding do_request
  post_json decode c path fields w =
      let (r, w') = do_request c "POST" path (json fields) w in (decoded decode r, w')

  -- `getJSON`, and the requests of `ListVMs` and `ListFiles`, whose answers are lists.
  unfoldable pub get_json :
      {A : Type 0} → (String → Option A) → Client → String → W → Result ClientError A × W
  unfolding do_request
  get_json decode c path w =
      let (r, w') = do_request c "GET" path no_payload w in (decoded decode r, w')

  unfoldable pub create_vm :
      (String → Option Fields) → Client → Fields → W → Result ClientError Fields × W
  unfolding post_json
  create_vm decode c req = post_json decode c "/v1/vms" req

  unfoldable pub delete_vm : Client → String → W → Result ClientError (Unit {0}) × W
  unfolding do_request
  delete_vm c id w =
      let (r, w') = do_request c "DELETE" (concat "/v1/vms/" id) no_payload w in
      (mapped (λ a. tt) r, w')

  unfoldable pub get_vm :
      (String → Option Fields) → Client → String → W → Result ClientError Fields × W
  unfolding get_json
  get_vm decode c id = get_json decode c (concat "/v1/vms/" id)

  unfoldable pub list_vms :
      (String → Option (List Fields)) → Client → W → Result ClientError (List Fields) × W
  unfolding get_json
  list_vms decode c = get_json decode c "/v1/vms"

  unfoldable pub exec :
      (String → Option Fields)
      → Client
      → String
      → String
      → Option ExecuteOptions
      → W
      → Result ClientError ExecutionResult × W
  unfolding post_json exec_body execution_result
  exec decode c vm_id command opts w =
      let (r, w') =
        post_json decode c (concat "/v1/vms/" (concat vm_id "/exec")) (exec_body command opts) w in
      (mapped execution_result r, w')

  module _ (query_escape : String → String) where
    abbrev pub file_path : String → String → String → String
    file_path vm_id rest path =
        concat "/v1/vms/" (concat vm_id (concat rest (concat "?path=" (query_escape path))))

    unfoldable pub read_file : Client → String → String → W → Result ClientError String × W
    unfolding do_request
    read_file c vm_id path w =
        let (r, w') = do_request c "GET" (file_path vm_id "/files" path) no_payload w in
        (mapped (λ a. a.body) r, w')

    unfoldable pub write_file :
        Client → String → String → String → W → Result ClientError (Unit {0}) × W
    unfolding do_request
    write_file c vm_id path content w =
        let (r, w') = do_request c "PUT" (file_path vm_id "/files" path) (bytes content) w in
        (mapped (λ a. tt) r, w')

    -- `decode` reads the names of the entries.
    unfoldable pub list_files :
        (String → Option (List String))
        → Client
        → String
        → String
        → W
        → Result ClientError (List String) × W
    unfolding get_json
    list_files decode c vm_id path = get_json decode c (file_path vm_id "/files/list" path)
