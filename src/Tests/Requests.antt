-- ===== src/Tests/Requests.antt =====
-- The hub and the responses of the API, on small inputs.
use zeno_plugin.Prelude.{◌≡◌, refl, ◌↔◌, inl, true, none, some, []}
use zeno_plugin.Prelude.Text.{Text, codes}
use zeno_plugin.Prelude.Result.{ok}
use zeno_plugin.Prelude.Int.{pos}
use zeno_plugin.Manifest.Value.{null, Python, end}
use zeno_plugin.Hub.{Services}
use zeno_plugin.Hub.Token.{consteq, consteq_iff}
use zeno_plugin.Hub.Session.{SessionInfo, session_json, to_json, from_json, from_json-to_json}
use zeno_plugin.Hub.Routes.{Request, do_post, reject}
use zeno_plugin.Hub.Routes.Guarded.{do_post_unauthorised, Proper, do_post-Proper}
use zeno_plugin.Http.{HttpResponse, raise_for_status}
use zeno_plugin.Http.Classes.{Explains, raise_for_status-Explains}

abbrev session : SessionInfo
session = record {
  host = codes "127.0.0.1";
  port = pos 4711;
  token = codes "secret";
  pid = pos 0;
  protocol_version = pos 1;
}

abbrev codec : Python
codec = record {
  loads = λ _. some (session_json session);
  dumps = λ _. [];
  render = λ _. [];
  int_of_text = λ _. none;
}

from_json-to_json_example : from_json codec (to_json codec session) ≡ some session
from_json-to_json_example = from_json-to_json codec session refl refl refl

abbrev hub : Services
hub = record {
  python = codec;
  token = codes "secret";
  health = null;
  expanduser = some;
  is_file = λ _. true;
  path_suffix = λ _. codes "blend";
  publish_chunked_file = λ _. ok (some (pos 2));
  ensure_uri_cached = λ _. ok (codes "/cache/a");
  ui = none;
  has_shutdown = true;
  dict_of = λ _. some end;
}

abbrev stop_request : Text → Request
stop_request token = record { path = codes "/v1/shutdown?now"; presented = token; content = [] }

do_post_unauthorised_example :
    do_post hub (stop_request (codes "guess")) ≡ reject 401 (codes "invalid or missing token")
do_post_unauthorised_example =
    do_post_unauthorised hub (stop_request (codes "guess")) (inl λ e. absurd cc)

do_post-Proper_example : Proper (do_post hub (stop_request (codes "secret")))
do_post-Proper_example = do_post-Proper hub (stop_request (codes "secret"))

consteq_iff_example : (consteq (codes "ab") (codes "ac") ≡ true) ↔ (codes "ab" ≡ codes "ac")
consteq_iff_example = consteq_iff (codes "ab") (codes "ac")

abbrev lock_refused : HttpResponse
lock_refused = record {
  status_code = 409;
  json = none;
  text = codes "held";
  reason_phrase = codes "Conflict";
}

raise_for_status-Explains_example :
    Explains lock_refused (raise_for_status codec lock_refused (codes "lock"))
raise_for_status-Explains_example = raise_for_status-Explains codec lock_refused (codes "lock")
