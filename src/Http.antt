-- ===== src/Http.antt =====
-- zeno_client/_http.py and zeno_client/exceptions.py: what a response of the API is turned into.
-- The response itself is httpx's.
pub mod Classes
use mathlib.Core.List.{reverse}
use zeno_plugin.Prelude.{
  ℕ, Bool, true, false, not, ◌&&◌, ◌||◌, Option, none, some, List, [], ◌∷◌, ◌++◌, leb, ltb, ◌==◌,
  if◌then◌else◌, is_empty,
}
use zeno_plugin.Prelude.Text.{Text, codes, lower, starts_with, contains}
use zeno_plugin.Prelude.Result.{Result, ok, err}
use zeno_plugin.Prelude.Int.{pos}
use zeno_plugin.Manifest.Value.{Json, null, int, str, obj, get, Python, text_of}

-- The exception classes.
pub data ErrorClass : Type 0 where
  zeno_api_error service_unavailable bad_request not_found conflict forbidden : ErrorClass
  resolve_bad_request resolve_not_found invalid_hash content_hash_mismatch blob_not_found :
      ErrorClass
  register_version_conflict register_content_not_found : ErrorClass
  lock_held_by_other lock_not_owned lock_not_found : ErrorClass

-- The class that a class is declared to extend; the root is its own.
unfoldable pub superclass : ErrorClass → ErrorClass
superclass resolve_bad_request = bad_request
superclass resolve_not_found = not_found
superclass invalid_hash = bad_request
superclass content_hash_mismatch = bad_request
superclass blob_not_found = not_found
superclass register_version_conflict = conflict
superclass register_content_not_found = conflict
superclass lock_held_by_other = conflict
superclass lock_not_owned = forbidden
superclass lock_not_found = not_found
superclass _ = zeno_api_error

pub record ZenoApiError : Type 0 where
  pub class : ErrorClass
  pub message : Text
  pub status_code : ℕ
  pub detail : Text

-- What is read of an `httpx.Response`; `json` is `none` where `resp.json()` raises.
pub record HttpResponse : Type 0 where
  pub status_code : ℕ
  pub json : Option Json
  pub text : Text
  pub reason_phrase : Text

-- `s.rstrip("/")` by its reverse
abbrev pub strip_slashes : Text → Text
strip_slashes [] = []
strip_slashes (c ∷ s) = if c == 47 then strip_slashes s else c ∷ s

unfoldable pub join : Text → Text → Text
join base_url path =
    reverse (strip_slashes (reverse base_url))
    ++ (if starts_with path (codes "/") then path else codes "/" ++ path)

abbrev pub body_text : HttpResponse → Text
body_text resp = if is_empty resp.text then resp.reason_phrase else resp.text

abbrev pub detail_of : Json → Text → Text
detail_of (str s) other = s
detail_of _ other = other

abbrev pub json_detail : Option Json → Text → Text
json_detail (some (obj fs)) other = detail_of (get (codes "detail") fs) other
json_detail _ other = other

unfoldable pub detail_from_response : HttpResponse → Text
detail_from_response resp = json_detail resp.json (body_text resp)

-- The class that is raised for a response which is no success.
unfoldable pub class_of : ℕ → Text → Text → ErrorClass
class_of status operation detail =
    let dlow = lower detail in
    if status == 503
    then service_unavailable
    else if status == 400
    then (if contains dlow (codes "hash") && contains dlow (codes "invalid")
        then invalid_hash
        else if contains dlow (codes "mismatch")
        then content_hash_mismatch
        else if starts_with operation (codes "resolve")
        then resolve_bad_request
        else bad_request)
    else if status == 404
    then (if starts_with operation (codes "resolve")
        then resolve_not_found
        else if starts_with operation (codes "get_blob")
            || starts_with operation (codes "blob_exists")
            || starts_with operation (codes "head_blob")
        then blob_not_found
        else if starts_with operation (codes "lock")
        then lock_not_found
        else not_found)
    else if status == 403
    then (if starts_with operation (codes "lock") then lock_not_owned else forbidden)
    else if status == 409
    then (if starts_with operation (codes "lock")
        then lock_held_by_other
        else if starts_with operation (codes "register_version")
        then (if contains dlow (codes "cas") || contains dlow (codes "content")
            then register_content_not_found
            else register_version_conflict)
        else conflict)
    else zeno_api_error

module _ (py : Python) where
  unfoldable pub raise_for_status : HttpResponse → Text → Result ZenoApiError (Unit {0})
  raise_for_status resp operation =
      let detail = detail_from_response resp in
      if leb 200 resp.status_code && ltb resp.status_code 300
      then ok tt
      else err record {
        class = class_of resp.status_code operation detail;
        message =
            operation
            ++ codes " failed ("
            ++ text_of py (int (pos resp.status_code))
            ++ codes "): "
            ++ detail;
        status_code = resp.status_code;
        detail = detail;
      }

  -- `problem` is the text of the exception that `resp.json()` raises, if it does.
  unfoldable pub parse_json : HttpResponse → Text → Text → Result ZenoApiError Json
  unfolding raise_for_status
  parse_json resp operation problem = elim (raise_for_status resp operation) [
    | err e ↦ err e
    | ok _ ↦
        let detail = codes "Invalid JSON response: " ++ problem in
        if resp.status_code == 204 then ok null else elim resp.json [
          | some v ↦ ok v
          | none ↦ err record {
            class = zeno_api_error;
            message = operation ++ codes " failed: " ++ detail;
            status_code = resp.status_code;
            detail = detail;
          }
        ]
  ]
