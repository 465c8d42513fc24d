-- ===== src/Hub/Routes.antt =====
-- chimera_hub/server.py, `_Handler`: the routes, and the token that each request must present.
pub mod Guarded
use zeno_plugin.Prelude.{
  ℕ, Bool, true, false, not, ◌&&◌, ◌||◌, Option, none, some, List, [], ◌∷◌, ◌++◌, ◌==◌, leb,
  if◌then◌else◌, is_empty,
}
use zeno_plugin.Prelude.Text.{Text, codes, text_eq}
use zeno_plugin.Chunking.{Bytes}
use zeno_plugin.Manifest.Value.{Json, null, bool, str, obj, Fields, end, field, Python}
use zeno_plugin.Hub.{
  Services, Call, open_palette, open_navigator, raise_windows, shut_down, Response, Answer,
  PublishRequest, coerce_publish, coerce_load, coerce_ui, object_of, publish, load, ui_call,
}
use zeno_plugin.Hub.Token.{consteq}

-- A request as it is read off the socket; a missing header is empty.
pub record Request : Type 0 where
  pub path : Text
  pub presented : Text
  pub content : Bytes

-- `path.split("?", 1)[0]`
abbrev pub before_query : Text → Text
before_query [] = []
before_query (c ∷ s) = if c == 63 then [] else c ∷ before_query s

abbrev pub reject : ℕ → Text → Answer
reject status message = (
  some record {
    status = status;
    payload = obj (field (codes "ok") (bool false) (field (codes "message") (str message) end));
  },
  [],
)

abbrev pub send : Json × List Call → Answer
send (payload, calls) = (some record { status = 200; payload = payload }, calls)

-- Where the handler raises there is no response.
abbrev pub send_or_drop : Option (Json × List Call) → Answer
send_or_drop none = (none, [])
send_or_drop (some r) = send r

module _ (hub : Services) where
  unfoldable pub authorised : Request → Bool
  authorised req = not (is_empty req.presented) && consteq req.presented hub.token

  unfoldable pub do_get : Request → Answer
  do_get req =
      if not (text_eq (before_query req.path) (codes "/v1/health"))
      then reject 404 (codes "no route " ++ req.path)
      else if not (authorised req)
      then reject 401 (codes "invalid or missing token")
      else send (hub.health, [])

  -- an empty body is an empty object
  unfoldable pub read_json : Request → Option Json
  read_json req = if is_empty req.content then some (obj end) else hub.python.loads req.content

  -- a call whose arguments may raise
  abbrev pub ui_route : Option Call → Answer
  ui_route call = elim hub.ui [
    | none ↦ reject 503 (codes "UI not available in this hub process")
    | some ui ↦ elim call [ none ↦ (none, []) | some c ↦ send (ui_call hub ui c) ]
  ]

  abbrev pub publish_request : Option Fields → Option PublishRequest
  publish_request none = none
  publish_request (some body) = coerce_publish hub body

  abbrev pub publish_route : Option PublishRequest → Answer
  publish_route none = (none, [])
  publish_route (some req) = send_or_drop (publish hub req)

  abbrev pub load_route : Option Fields → Answer
  load_route none = (none, [])
  load_route (some body) = send (load hub (coerce_load hub body))

  abbrev pub palette_call : Option Fields → Option Call
  palette_call none = none
  palette_call (some body) =
      let req = coerce_ui hub body in some (open_palette req.prefs_default_project req.launch_hint)

  abbrev pub navigator_call : Option Fields → Option Call
  navigator_call none = none
  navigator_call (some body) = some open_navigator

  abbrev pub shutdown_route : Answer
  shutdown_route = send (
    obj (
        field (codes "ok") (bool true) (field (codes "message") (str (codes "shutting down")) end)),
    if hub.has_shutdown then shut_down ∷ [] else [],
  )

  -- The body is `none` if it is not an object, and has no `get`: the routes that read it raise.
  unfoldable pub route : Text → Option Fields → Answer
  route path body =
      if text_eq path (codes "/v1/publish")
      then publish_route (publish_request body)
      else if text_eq path (codes "/v1/load")
      then load_route body
      else if text_eq path (codes "/v1/ui/palette")
      then ui_route (palette_call body)
      else if text_eq path (codes "/v1/ui/navigator")
      then ui_route (navigator_call body)
      else if text_eq path (codes "/v1/ui/raise")
      then ui_route (some raise_windows)
      else if text_eq path (codes "/v1/shutdown")
      then shutdown_route
      else reject 404 (codes "no route " ++ path)

  abbrev pub dispatch : Text → Option Json → Answer
  dispatch path none = reject 400 (codes "invalid JSON body")
  dispatch path (some null) = reject 400 (codes "invalid JSON body")
  dispatch path (some body) = route path (object_of hub body)

  unfoldable pub do_post : Request → Answer
  do_post req =
      if not (authorised req)
      then reject 401 (codes "invalid or missing token")
      else dispatch (before_query req.path) (read_json req)
