-- ===== src/Tests/Clients.antt =====
-- A client and a hub, with a codec for one request and one answer.
use zeno_plugin.Prelude.{zero, suc, ◌≡◌, refl, true, Option, none, some, [], ◌∷◌}
use zeno_plugin.Prelude.Text.{Text, codes}
use zeno_plugin.Prelude.Result.{ok}
use zeno_plugin.Prelude.Int.{pos}
use zeno_plugin.Chunking.{Bytes}
use zeno_plugin.Manifest.Value.{Json, null, bool, int, str, obj, field, Python}
use zeno_plugin.Hub.{
  Services, reply, ensure_uri, publish_file, or_text, build_asset_uri, load, publish_path,
}
use zeno_plugin.Hub.Session.{SessionInfo}
use zeno_plugin.Hub.Routes.{do_post}
use zeno_plugin.Thin.{
  PublishArguments, LoadArguments, publish_body, load_body, publish_request, load_request, receive,
}
use zeno_plugin.Thin.Sent.{on_wire, asked, coerced, requested}
use zeno_plugin.Thin.Carried.{load_carried, publish_carried}

-- The body of a request is written as 0 and 0, whatever starts with an answer's first key as 1.
abbrev dumps : Json → Bytes
dumps (obj (field k (bool b) fs)) = 1 ∷ []
dumps v = 0 ∷ []

-- `reply` is what the answers are read as.
abbrev loads : Json → Json → Bytes → Option Json
loads question reply [] = none
loads question reply (zero ∷ rest) = some question
loads question reply (suc k ∷ rest) = some reply

abbrev codec : Json → Json → Python
codec question reply = record {
  loads = loads question reply;
  dumps = dumps;
  render = λ _. [];
  int_of_text = λ _. none;
}

abbrev session : SessionInfo
session = record {
  host = codes "127.0.0.1";
  port = pos 4711;
  token = codes "secret";
  pid = pos 1;
  protocol_version = pos 1;
}

abbrev hub : Python → Services
hub py = record {
  python = py;
  token = codes "secret";
  health = null;
  expanduser = some;
  is_file = λ _. true;
  path_suffix = λ _. codes "blend";
  publish_chunked_file = λ _. ok (some (pos 2));
  ensure_uri_cached = λ _. ok (codes "/cache/a");
  ui = none;
  has_shutdown = true;
  dict_of = λ v. elim v [ obj fs ↦ some fs | _ ↦ none ];
}

abbrev to_load : LoadArguments
to_load = record { project = codes "p"; asset = codes "a"; version = []; representation = [] }

abbrev to_publish : PublishArguments
to_publish = record {
  path = codes "a.blend";
  project = codes "p";
  asset = codes "a";
  representation = [];
  version = [];
  dcc = codes "blender";
  pipeline_stage = codes " Layout";
  task_id = codes "t1 ";
  extras = none;
}

abbrev no_text : Bytes → Text
no_text b = []

abbrev loader : Services
loader =
    hub (
      codec (obj (load_body to_load)) (reply true (codes "local_path") (str (codes "/cache/a")) []))

load_carried_example :
    let answer = do_post loader (load_request loader.python session to_load) in
    (answer.1
      ≡ ensure_uri (
          build_asset_uri loader
            (codes "p")
            (codes "a")
            (or_text [] (codes "latest"))
            (or_text [] (codes "blend")))
        ∷ [])
    × (receive loader.python no_text no_text (on_wire loader.python answer)
        ≡ ok (load loader (asked to_load)).0)
unfolding load load_body
load_carried_example =
    load_carried loader session no_text no_text to_load refl refl (refl, refl) (refl, refl)

abbrev publisher : Services
publisher = hub (
    codec (obj (publish_body to_publish))
      (reply true (codes "version") (int (pos 2)) (codes "published")))

publish_carried_example :
    let answer = do_post publisher (publish_request publisher.python session to_publish) in
    (answer.1 ≡ publish_file (record (requested to_publish) { path = codes "a.blend" }) ∷ [])
    × (receive publisher.python no_text no_text (on_wire publisher.python answer)
        ≡ ok (publish_path publisher (coerced to_publish) (codes "a.blend")).0)
unfolding publish_path publish_body
publish_carried_example =
    publish_carried publisher session no_text no_text to_publish (codes "a.blend") refl refl refl
      refl refl refl (refl, refl) (refl, refl)
