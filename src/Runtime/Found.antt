-- ===== src/Runtime/Found.antt =====
-- A client finds the hub that has announced itself.
use zeno_plugin.Prelude.{◌≡◌, refl, Option, none, some, ◌==◌, if◌then◌else◌}
use zeno_plugin.Prelude.Text.{Text}
use zeno_plugin.Prelude.Result.{Result, ok, err}
use zeno_plugin.Prelude.Int.{ℤ}
use zeno_plugin.Manifest.Value.{Python}
use zeno_plugin.Hub.Session.{SessionInfo}
use zeno_plugin.Runtime.{
  HubFiles, HealthAnswer, status, unreachable, raises, read_session, discover_session, new_session,
  write_session, write_pid_file, prepare_session, clear_session,
}
use zeno_plugin.Runtime.Invariant.{Codec, readable}

abbrev pub found_by : HealthAnswer → SessionInfo → Result Text (Option SessionInfo)
found_by (status n) info = ok (if n == 200 then some info else none)
found_by unreachable info = ok none
found_by (raises e) info = err e

-- Whatever the files were before, a client that asks after a hub has announced itself finds exactly
-- the session that the hub is to serve, or none where the request for its health meets an OSError or
-- another status than 200; any other exception of the request passes. Once the hub has cleared its
-- session there is none to find, and nothing is raised. The JSON codec is supposed to read back the
-- sessions that it wrote.
pub discover_session-prepare_session :
    (py : Python)
    → Codec py
    → (host : Option Text) (port : Option ℤ) (picked : ℤ) (token : Text) (pid : ℤ)
      (health : SessionInfo → HealthAnswer) (files : HubFiles)
    → let (info, announced) = prepare_session py host port picked token pid files in
      (discover_session py health announced ≡ found_by (health info) info)
      × (discover_session py health (clear_session announced) ≡ ok none)
unfolding prepare_session write_session write_pid_file clear_session discover_session read_session
discover_session-prepare_session py codec host port picked token pid health files =
    let back = readable py codec host port picked token pid in
    (rw (back, discover_session) (asked (health (new_session host port picked token pid))), refl)
  where
    asked :
        (answer : HealthAnswer)
        → elim answer as (λ _. Result Text (Option SessionInfo)) [
          | status n ↦ ok (if n == 200 then some (new_session host port picked token pid) else none)
          | unreachable ↦ ok none
          | raises e ↦ err e
        ]
          ≡ found_by answer (new_session host port picked token pid)
    asked (status n) = refl
    asked unreachable = refl
    asked (raises e) = refl
