-- ===== src/Hub.antt =====
-- chimera_hub: the requests that the hub answers (server.py) and the work behind them (handlers.py).
-- What the handlers ask of the rest of the program is the record `Services`; each such call is
-- listed in the answer, so that it can be said which calls are made at all.
pub mod Token
pub mod Session
pub mod Routes
use zeno_plugin.Prelude.{
  ℕ, ◌+◌, Bool, true, false, not, ◌&&◌, ◌||◌, Option, none, some, List, [], ◌∷◌, ◌++◌, leb, ◌==◌,
  if◌then◌else◌, is_empty,
}
use zeno_plugin.Prelude.Text.{Text, codes, text_eq, strip, lower}
use zeno_plugin.Prelude.Result.{Result, ok, err}
use zeno_plugin.Prelude.Int.{ℤ, pos}
use zeno_plugin.Manifest.Value.{
  Json, null, bool, int, str, obj, arr, Fields, end, field, get, or_default, truthy, Python,
  text_of,
}
use Token.{consteq}

-- The arguments of `publish_chunked_file`; the file name is that of the path, and an empty `dcc` is
-- none.
pub record PublishCall : Type 0 where
  pub project : Text
  pub asset : Text
  pub representation : Text
  pub path : Text
  pub version : Text
  pub dcc : Text
  pub pipeline_stage : Text
  pub task_id : Option Text

pub data Call : Type 0 where
  publish_file : PublishCall → Call
  ensure_uri : Text → Call
  open_palette : Text → Option Fields → Call
  open_navigator raise_windows shut_down : Call

-- `none` is a server with no UI, or no hook for the shutdown. An error is the text of an exception.
pub record Services : Type 0 where
  pub python : Python
  pub token : Text
  pub health : Json
  -- `str(Path(p).expanduser())`; `none` where it raises
  pub expanduser : Text → Option Text
  pub is_file : Text → Bool
  -- without its dot
  pub path_suffix : Text → Text
  -- the version number that was registered, if it is a number
  pub publish_chunked_file : PublishCall → Result Text (Option ℤ)
  pub ensure_uri_cached : Text → Result Text Text
  pub ui : Option (Call → Result Text Bool)
  pub has_shutdown : Bool
  -- `dict(v)`, which may raise
  pub dict_of : Json → Option Fields

pub record PublishRequest : Type 0 where
  pub path : Text
  pub project : Text
  pub asset : Text
  pub representation : Text
  pub version : Text
  pub dcc : Text
  pub extras : Fields

pub record LoadRequest : Type 0 where
  pub project : Text
  pub asset : Text
  pub version : Text
  pub representation : Text

pub record UiOpenRequest : Type 0 where
  pub prefs_default_project : Text
  pub launch_hint : Option Fields

pub record Response : Type 0 where
  pub status : ℕ
  pub payload : Json

-- The calls that a request makes, in order, and its response. There is none where the handler
-- raises, and the connection is dropped.
abbrev pub Answer : Type 0
Answer = Option Response × List Call

-- `a or b` on texts
abbrev pub or_text : Text → Text → Text
or_text a b = if is_empty a then b else a

abbrev pub reply : Bool → Text → Json → Text → Json
reply is_ok key value message =
    obj (
      field (codes "ok") (bool is_ok) (field key value (field (codes "message") (str message) end)))

abbrev pub number : Option ℤ → Json
number none = null
number (some i) = int i

abbrev pub failed : Text → Json → Text → Json
failed key value message = reply false key value message

module _ (hub : Services) where
  -- `str(body.get(key) or default)`
  abbrev pub text_field : Text → Text → Fields → Text
  text_field key default body = text_of hub.python (or_default (get key body) (str default))

  unfoldable pub coerce_publish : Fields → Option PublishRequest
  coerce_publish body = elim (hub.dict_of (or_default (get (codes "extras") body) (obj end))) [
    | none ↦ none
    | some extras ↦ some record {
      path = text_field (codes "path") [] body;
      project = text_field (codes "project") [] body;
      asset = text_field (codes "asset") [] body;
      representation = text_field (codes "representation") (codes "blend") body;
      version = text_field (codes "version") (codes "next") body;
      dcc = text_field (codes "dcc") [] body;
      extras = extras;
    }
  ]

  unfoldable pub coerce_load : Fields → LoadRequest
  coerce_load body = record {
    project = text_field (codes "project") [] body;
    asset = text_field (codes "asset") [] body;
    version = text_field (codes "version") (codes "latest") body;
    representation = text_field (codes "representation") (codes "blend") body;
  }

  abbrev pub object_of : Json → Option Fields
  object_of (obj fs) = some fs
  object_of _ = none

  unfoldable pub coerce_ui : Fields → UiOpenRequest
  coerce_ui body = record {
    prefs_default_project = text_field (codes "prefs_default_project") [] body;
    launch_hint = object_of (get (codes "launch_hint") body);
  }

  unfoldable pub publish_path : PublishRequest → Text → Json × List Call
  publish_path req path =
      let task = strip (text_field (codes "task_id") [] req.extras) in
      let call : PublishCall = record {
        project = req.project;
        asset = req.asset;
        representation =
            or_text req.representation (or_text (hub.path_suffix path) (codes "blend"));
        path = path;
        version = or_text req.version (codes "next");
        dcc = req.dcc;
        pipeline_stage = lower (strip (text_field (codes "pipeline_stage") [] req.extras));
        task_id = if is_empty task then none else some task;
      } in
      if not (hub.is_file path)
      then (failed (codes "version") null (codes "Path not found: " ++ path), [])
      else (
        elim (hub.publish_chunked_file call) [
          | err e ↦ failed (codes "version") null e
          | ok version ↦ reply true (codes "version") (number version) (codes "published")
        ],
        publish_file call ∷ [],
      )

  -- `none` where the path cannot be expanded, and the handler raises
  unfoldable pub publish : PublishRequest → Option (Json × List Call)
  publish req = elim (hub.expanduser req.path) [
    | none ↦ none
    | some path ↦ some (publish_path req path)
  ]

  unfoldable pub build_asset_uri : Text → Text → Text → Text → Text
  build_asset_uri project asset version representation =
      codes "asset://"
      ++ project
      ++ codes "/"
      ++ asset
      ++ codes "/"
      ++ version
      ++ codes "/"
      ++ representation

  unfoldable pub load : LoadRequest → Json × List Call
  load req =
      let uri =
        build_asset_uri req.project req.asset (or_text req.version (codes "latest"))
          (or_text req.representation (codes "blend")) in
      (
        elim (hub.ensure_uri_cached uri) [
          | err e ↦ failed (codes "local_path") (str []) e
          | ok path ↦ reply true (codes "local_path") (str path) []
        ],
        ensure_uri uri ∷ [],
      )

  -- `ui_open_palette`, `ui_open_navigator` and `ui_raise`
  unfoldable pub ui_call : (Call → Result Text Bool) → Call → Json × List Call
  ui_call ui call = (
    elim (ui call) [
      | err e ↦ failed (codes "raised") (bool false) e
      | ok raised ↦ reply true (codes "raised") (bool raised) []
    ],
    call ∷ [],
  )
