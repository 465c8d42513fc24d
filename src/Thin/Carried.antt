-- ===== src/Thin/Carried.antt =====
-- What a client asks for is what the hub does, and the client gets the answer of the handler.
use zeno_plugin.Prelude.{◌≡◌, ap, ◌∙◌, true, false, none, some, [], ◌∷◌, is_empty}
use zeno_plugin.Prelude.Text.{Text, codes}
use zeno_plugin.Prelude.Result.{ok}
use zeno_plugin.Chunking.{Bytes}
use zeno_plugin.Manifest.Value.{obj}
use zeno_plugin.Hub.{
  Services, ensure_uri, publish_file, Answer, or_text, load, publish_path, build_asset_uri,
}
use zeno_plugin.Hub.Session.{SessionInfo}
use zeno_plugin.Hub.Routes.{do_post, send_or_drop}
use zeno_plugin.Thin.{
  PublishArguments, LoadArguments, merged_extras, publish_body, load_body, publish_request,
  load_request, receive,
}
use zeno_plugin.Thin.Sent.{
  Carries, on_wire, asked, coerced, requested, load_answer, load_calls, publish_answer,
  publish_expanded, publish_calls, sent_back,
}

-- With a session that holds the hub's token, which is not empty, and a codec that carries the body
-- and the answer: a client's `load` makes the hub ask its cache for exactly the URI of the arguments,
-- empty versions and representations read as "latest" and "blend", and for nothing else, and the
-- client gets the payload of the handler.
pub load_carried :
    (hub : Services) (session : SessionInfo) (decode json_error : Bytes → Text) (a : LoadArguments)
    → session.token ≡ hub.token
    → is_empty hub.token ≡ false
    → Carries hub.python (obj (load_body a))
    → Carries hub.python (load hub (asked a)).0
    → let answer = do_post hub (load_request hub.python session a) in
      (answer.1
        ≡ ensure_uri (
            build_asset_uri hub a.project a.asset
              (or_text a.version (codes "latest"))
              (or_text a.representation (codes "blend")))
          ∷ [])
      × (receive hub.python decode json_error (on_wire hub.python answer)
          ≡ ok (load hub (asked a)).0)
load_carried hub session decode json_error a same secret body back =
    let answer = load_answer hub session same secret decode json_error a body in
    (
      ap (λ (r : Answer). r.1) answer ∙ load_calls hub session same secret decode json_error a,
      ap (λ (r : Answer). receive hub.python decode json_error (on_wire hub.python r)) answer
          ∙ sent_back hub session same secret decode json_error (load hub (asked a)) back,
    )

-- With a session that holds the hub's token, which is not empty, and a codec that carries the body
-- and the answer: a client's `publish` of a file that is there, without extras of its own, makes the
-- hub call the publisher once, with the arguments of the client and its path with `~` expanded, and the client gets the payload of
-- the handler. An empty representation is "blend" and an empty version "next"; the pipeline stage is
-- stripped and in lower case, the task is stripped and left out where it is empty.
pub publish_carried :
    (hub : Services) (session : SessionInfo) (decode json_error : Bytes → Text)
    (a : PublishArguments) (path : Text)
    → session.token ≡ hub.token
    → is_empty hub.token ≡ false
    → a.extras ≡ none
    → hub.expanduser a.path ≡ some path
    → hub.is_file path ≡ true
    → hub.dict_of (obj (merged_extras a)) ≡ some (merged_extras a)
    → Carries hub.python (obj (publish_body a))
    → Carries hub.python (publish_path hub (coerced a) path).0
    → let answer = do_post hub (publish_request hub.python session a) in
      (answer.1 ≡ publish_file (record (requested a) { path = path }) ∷ [])
      × (receive hub.python decode json_error (on_wire hub.python answer)
          ≡ ok (publish_path hub (coerced a) path).0)
publish_carried hub session decode json_error a path same secret plain home file dict body back =
    let answer =
      publish_answer hub session same secret decode json_error a body dict
      ∙ ap send_or_drop (publish_expanded hub session same secret decode json_error a path home) in
    (
      ap (λ (r : Answer). r.1) answer
          ∙ publish_calls hub session same secret decode json_error a path plain file,
      ap (λ (r : Answer). receive hub.python decode json_error (on_wire hub.python r)) answer
          ∙ sent_back hub session same secret decode json_error (publish_path hub (coerced a) path)
              back,
    )
