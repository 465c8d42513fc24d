-- ===== src/Thin/Sent.antt =====
-- The steps of a request: it is let in, read as it was written, and answered by its handler.
use zeno_plugin.Prelude.{
  ℕ, ◌≡◌, refl, ap, ◌∙◌, true, false, Option, none, some, List, [], ◌∷◌, is_empty, if◌then◌else◌,
}
use zeno_plugin.Prelude.Text.{Text, codes, text_eq, strip, lower}
use zeno_plugin.Prelude.Clean.{strip-strip, lower-strip_twice}
use zeno_plugin.Prelude.Result.{ok}
use zeno_plugin.Chunking.{Bytes}
use zeno_plugin.Manifest.Value.{
  Json, str, obj, Fields, end, field, get, or_default, Python, text_of,
}
use zeno_plugin.Hub.{
  Services, Call, ensure_uri, publish_file, PublishCall, LoadRequest, PublishRequest, Answer,
  or_text, coerce_load, coerce_publish, load, publish, publish_path, build_asset_uri,
}
use zeno_plugin.Hub.Token.{consteq_iff}
use zeno_plugin.Hub.Session.{SessionInfo}
use zeno_plugin.Hub.Routes.{
  send, send_or_drop, publish_route, authorised, read_json, before_query, route, do_post,
}
use zeno_plugin.Thin.{
  PublishArguments, LoadArguments, merged_extras, publish_body, load_body, post, publish_request,
  load_request, receive, add_extra,
}

-- What comes back over the connection: nothing where the handler raised.
abbrev pub on_wire : Python → Answer → Option (ℕ × Bytes)
on_wire py (none, calls) = none
on_wire py (some r, calls) = some (r.status, py.dumps r.payload)

-- The codec reads back `v`, and writes a byte at least.
abbrev pub Carries : Python → Json → Type 0
Carries py v = (py.loads (py.dumps v) ≡ some v) × (is_empty (py.dumps v) ≡ false)

-- What the handlers get.
abbrev pub asked : LoadArguments → LoadRequest
asked a = record {
  project = a.project;
  asset = a.asset;
  version = or_text a.version (codes "latest");
  representation = or_text a.representation (codes "blend");
}

abbrev pub coerced : PublishArguments → PublishRequest
coerced a = record {
  path = a.path;
  project = a.project;
  asset = a.asset;
  representation = or_text a.representation (codes "blend");
  version = or_text a.version (codes "next");
  dcc = a.dcc;
  extras = merged_extras a;
}

-- What the publisher is called with, for a request without extras of its own.
abbrev pub requested : PublishArguments → PublishCall
requested a = record {
  project = a.project;
  asset = a.asset;
  representation = or_text a.representation (codes "blend");
  path = a.path;
  version = or_text a.version (codes "next");
  dcc = a.dcc;
  pipeline_stage = lower (strip a.pipeline_stage);
  task_id = if is_empty (strip a.task_id) then none else some (strip a.task_id);
}

twice : (s d other : Text) → is_empty d ≡ false → or_text (or_text s d) other ≡ or_text s d
twice [] d other f = rw f refl
twice (c ∷ s) d other f = refl

module _ (hub : Services) (session : SessionInfo) (same : session.token ≡ hub.token)
    (secret : is_empty hub.token ≡ false) (decode json_error : Bytes → Text) where
  allowed : (path : Text) (v : Fields) → authorised hub (post hub.python session path v) ≡ true
  unfolding authorised post
  allowed path v = rw (same, secret, (consteq_iff hub.token hub.token).1 refl) refl

  -- the object reaches the routes as it was written
  routed :
      (path : Text) (fs : Fields)
      → Carries hub.python (obj fs)
      → do_post hub (post hub.python session path fs) ≡ route hub (before_query path) (some fs)
  unfolding do_post read_json post
  routed path fs (reads, some_bytes) = rw (allowed path fs, do_post) (rw (some_bytes, reads) refl)

  received :
      (v : Json)
      → Carries hub.python v
      → receive hub.python decode json_error (some (200, hub.python.dumps v)) ≡ ok v
  unfolding receive
  received v (reads, some_bytes) = rw (some_bytes, reads) refl

  -- `str(body.get(key) or default)` of a text
  text_or : (s d : Text) → text_of hub.python (or_default (str s) (str d)) ≡ or_text s d
  text_or [] d = refl
  text_or (c ∷ s) d = refl

  text_or_nil : (s : Text) → text_of hub.python (or_default (str s) (str [])) ≡ s
  text_or_nil [] = refl
  text_or_nil (c ∷ s) = refl

  coerce_load-load_body : (a : LoadArguments) → coerce_load hub (load_body a) ≡ asked a
  unfolding coerce_load load_body get text_eq
  coerce_load-load_body a =
      rw
        (
          text_or_nil a.project,
          text_or_nil a.asset,
          text_or a.version (codes "latest"),
          text_or a.representation (codes "blend"),
        )
        refl

  -- the extras of a request that has none of its own
  extras_stage :
      (a : PublishArguments)
      → a.extras ≡ none
      → text_of hub.python (or_default (get (codes "pipeline_stage") (merged_extras a)) (str []))
        ≡ lower (strip a.pipeline_stage)
  unfolding merged_extras
  extras_stage a e = rw e (both (lower (strip a.pipeline_stage)) (strip a.task_id))
    where
      both :
          (stage task : Text)
          → text_of hub.python (
              or_default
                (get
                  (codes "pipeline_stage")
                  (add_extra (codes "task_id") task (add_extra (codes "pipeline_stage") stage end)))
                (str []))
            ≡ stage
      both [] [] = unfold get text_eq in refl
      both [] (c ∷ t) = unfold get text_eq in refl
      both (c ∷ s) [] = unfold get text_eq in refl
      both (c ∷ s) (d ∷ t) = unfold get text_eq in refl

  extras_task :
      (a : PublishArguments)
      → a.extras ≡ none
      → text_of hub.python (or_default (get (codes "task_id") (merged_extras a)) (str []))
        ≡ strip a.task_id
  unfolding merged_extras
  extras_task a e = rw e (both (lower (strip a.pipeline_stage)) (strip a.task_id))
    where
      both :
          (stage task : Text)
          → text_of hub.python (
              or_default
                (get
                  (codes "task_id")
                  (add_extra (codes "task_id") task (add_extra (codes "pipeline_stage") stage end)))
                (str []))
            ≡ task
      both [] [] = unfold get text_eq in refl
      both [] (c ∷ t) = unfold get text_eq in refl
      both (c ∷ s) [] = unfold get text_eq in refl
      both (c ∷ s) (d ∷ t) = unfold get text_eq in refl

  pub load_answer :
      (a : LoadArguments)
      → Carries hub.python (obj (load_body a))
      → do_post hub (load_request hub.python session a) ≡ send (load hub (asked a))
  unfolding load_request route text_eq
  load_answer a carries =
      routed (codes "/v1/load") (load_body a) carries
      ∙ ap (λ r. send (load hub r)) (coerce_load-load_body a)

  coerce_publish-publish_body :
      (a : PublishArguments)
      → hub.dict_of (obj (merged_extras a)) ≡ some (merged_extras a)
      → coerce_publish hub (publish_body a) ≡ some (coerced a)
  unfolding coerce_publish publish_body get text_eq
  coerce_publish-publish_body a dict =
      let read : hub.dict_of (or_default (obj (merged_extras a)) (obj end))
          ≡ some (merged_extras a) =
        ap hub.dict_of (given (merged_extras a)) ∙ dict in
      rw (read, coerce_publish)
        (rw
          (
            text_or_nil a.path,
            text_or_nil a.project,
            text_or_nil a.asset,
            text_or a.representation (codes "blend"),
            text_or a.version (codes "next"),
            text_or_nil a.dcc,
          )
          refl)
    where
      given : (fs : Fields) → or_default (obj fs) (obj end) ≡ obj fs
      given end = refl
      given (field k v fs) = refl

  pub publish_answer :
      (a : PublishArguments)
      → Carries hub.python (obj (publish_body a))
      → hub.dict_of (obj (merged_extras a)) ≡ some (merged_extras a)
      → do_post hub (publish_request hub.python session a) ≡ send_or_drop (publish hub (coerced a))
  unfolding publish_request route text_eq
  publish_answer a carries dict =
      routed (codes "/v1/publish") (publish_body a) carries
      ∙ ap (publish_route hub) (coerce_publish-publish_body a dict)

  pub publish_expanded :
      (a : PublishArguments) (path : Text)
      → hub.expanduser a.path ≡ some path
      → publish hub (coerced a) ≡ some (publish_path hub (coerced a) path)
  unfolding publish
  publish_expanded a path e = rw (e, publish) refl

  pub publish_calls :
      (a : PublishArguments) (path : Text)
      → a.extras ≡ none
      → hub.is_file path ≡ true
      → (publish_path hub (coerced a) path).1
        ≡ publish_file (record (requested a) { path = path }) ∷ []
  unfolding publish_path
  publish_calls a path e file =
      rw
        (
          file,
          extras_task a e,
          extras_stage a e,
          strip-strip a.task_id,
          lower-strip_twice a.pipeline_stage,
          twice a.representation (codes "blend") _ refl,
          twice a.version (codes "next") _ refl,
        )
        refl

  pub load_calls :
      (a : LoadArguments)
      → (load hub (asked a)).1
        ≡ ensure_uri (
            build_asset_uri hub a.project a.asset
              (or_text a.version (codes "latest"))
              (or_text a.representation (codes "blend")))
          ∷ []
  unfolding load
  load_calls a =
      rw (twice a.version (codes "latest") _ refl, twice a.representation (codes "blend") _ refl)
        refl

  -- the answer of a handler comes back as its payload
  pub sent_back :
      (r : Json × List Call)
      → Carries hub.python r.0
      → receive hub.python decode json_error (on_wire hub.python (send r)) ≡ ok r.0
  sent_back (payload, calls) carries = received payload carries
