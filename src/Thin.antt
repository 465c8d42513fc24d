-- ===== src/Thin.antt =====
-- zeno_thin/client.py, `ThinHubClient`: the requests that an application sends to the hub, and what
-- it makes of the answers. The connection is a parameter; the hub at its other end is Hub/Routes.
pub mod Sent
pub mod Carried
use zeno_plugin.Prelude.{
  ℕ, Bool, true, false, not, ◌&&◌, ◌||◌, Option, none, some, List, [], ◌∷◌, ◌++◌, if◌then◌else◌,
  is_empty, ◌==◌, leb,
}
use zeno_plugin.Prelude.Text.{Text, codes, text_eq, strip, lower}
use zeno_plugin.Prelude.Result.{Result, ok, err}
use zeno_plugin.Chunking.{Bytes}
use zeno_plugin.Manifest.Value.{
  Json, str, obj, Fields, end, field, get, or_default, Python, text_of,
}
use zeno_plugin.Hub.Session.{SessionInfo}
use zeno_plugin.Hub.Routes.{Request}

pub data ThinError : Type 0 where
  hub_not_running hub_unauthorised : ThinError
  hub_request_failed : (status : ℕ) → (message : Text) → ThinError

-- The arguments of `publish`.
pub record PublishArguments : Type 0 where
  pub path : Text
  pub project : Text
  pub asset : Text
  pub representation : Text
  pub version : Text
  pub dcc : Text
  pub pipeline_stage : Text
  pub task_id : Text
  pub extras : Option Fields

-- The arguments of `load`.
pub record LoadArguments : Type 0 where
  pub project : Text
  pub asset : Text
  pub version : Text
  pub representation : Text

-- `key in d`
abbrev pub has_key : Text → Fields → Bool
has_key key end = false
has_key key (field k v fs) = text_eq k key || has_key key fs

-- `d[key] = v` for a key that is not in `d`
abbrev pub put : Text → Json → Fields → Fields
put key v end = field key v end
put key v (field k w fs) = field k w (put key v fs)

-- A value that is empty, or whose key is taken, is left out.
abbrev pub add_extra : Text → Text → Fields → Fields
add_extra key value fs =
    if not (is_empty value) && not (has_key key fs) then put key (str value) fs else fs

unfoldable pub merged_extras : PublishArguments → Fields
merged_extras a = add_extra (codes "task_id") (strip a.task_id) (
    add_extra (codes "pipeline_stage") (lower (strip a.pipeline_stage))
      (elim a.extras [ none ↦ end | some fs ↦ fs ]))

unfoldable pub publish_body : PublishArguments → Fields
publish_body a = field (codes "path") (str a.path) (
    field (codes "project") (str a.project) (
      field (codes "asset") (str a.asset) (
        field (codes "representation") (str a.representation) (
          field (codes "version") (str a.version) (
            field (codes "dcc") (str a.dcc)
              (field (codes "extras") (obj (merged_extras a)) end))))))

unfoldable pub load_body : LoadArguments → Fields
load_body a = field (codes "project") (str a.project) (
    field (codes "asset") (str a.asset) (
      field (codes "version") (str a.version)
        (field (codes "representation") (str a.representation) end)))

module _ (py : Python) (session : SessionInfo) where
  -- A request with the token of the session.
  unfoldable pub post : Text → Fields → Request
  post path body = record { path = path; presented = session.token; content = py.dumps (obj body) }

  unfoldable pub publish_request : PublishArguments → Request
  publish_request a = post (codes "/v1/publish") (publish_body a)

  unfoldable pub load_request : LoadArguments → Request
  load_request a = post (codes "/v1/load") (load_body a)

-- `decode` replaces what is no UTF-8; `json_error` is the message of a ValueError.
module _ (py : Python) (decode json_error : Bytes → Text) where
  abbrev pub error_message : Bytes → Text
  error_message raw = elim (py.loads raw) [
    | some v ↦ elim v [
      | obj payload ↦ text_of py (or_default (get (codes "message") payload) (str (decode raw)))
      | _ ↦ decode raw
    ]
    | none ↦ decode raw
  ]

  -- The status and the body of the response; `none` on an OSError, also where the hub drops the
  -- connection.
  unfoldable pub receive : Option (ℕ × Bytes) → Result ThinError Json
  receive none = err hub_not_running
  receive (some (status, raw)) =
      if status == 401
      then err hub_unauthorised
      else if leb 400 status
      then err (hub_request_failed status (error_message raw))
      else if is_empty raw
      then ok (obj end)
      else elim (py.loads raw) [
        | some v ↦ ok v
        | none ↦ err (hub_request_failed status (codes "invalid JSON response: " ++ json_error raw))
      ]
