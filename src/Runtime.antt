-- ===== src/Runtime.antt =====
-- chimera_hub/runtime.py and zeno_thin/client.py: how a hub announces itself in its session file,
-- how it refuses to start beside another, and how a client finds it or starts it. Sockets, signals
-- and processes are the answers of the operating system, which are parameters.
pub mod Processes
pub mod Invariant
pub mod Single
pub mod Race
pub mod Found
use zeno_plugin.Prelude.{
  ℕ, Bool, true, false, ◌&&◌, Option, none, some, List, [], ◌∷◌, if◌then◌else◌, is_empty, ◌==◌,
}
use zeno_plugin.Prelude.Text.{Text, codes}
use zeno_plugin.Prelude.Result.{Result, ok, err}
use zeno_plugin.Prelude.Int.{ℤ, pos, negsuc}
use zeno_plugin.Chunking.{Bytes}
use zeno_plugin.Manifest.Value.{int, Python, text_of, is_nonzero}
use zeno_plugin.Hub.Session.{SessionInfo, to_json, from_json}

-- What `os.kill(pid, 0)` does: it returns, or it raises a ProcessLookupError, a PermissionError, or
-- another OSError.
pub data KillAnswer : Type 0 where
  returns lookup_error permission_error os_error : KillAnswer

abbrev pub answers_alive : KillAnswer → Bool
answers_alive returns = true
answers_alive permission_error = true
answers_alive _ = false

unfoldable pub is_pid_alive : (ℤ → KillAnswer) → ℤ → Bool
is_pid_alive kill (pos n) = if n == 0 then false else answers_alive (kill (pos n))
is_pid_alive kill (negsuc n) = false

-- The files in `var_dir()`; `none` where there is no such file.
pub record HubFiles : Type 0 where
  pub session : Option Bytes
  pub pid : Option Bytes

-- The session in the file, if it parses.
unfoldable pub read_session : Python → HubFiles → Option SessionInfo
read_session py files = elim files.session [ none ↦ none | some content ↦ from_json py content ]

-- `connects host port` tells whether something listens there.
unfoldable pub existing_session :
    Python → (ℤ → KillAnswer) → (Text → ℤ → Bool) → HubFiles → Option SessionInfo
existing_session py kill connects files = elim (read_session py files) [
  | none ↦ none
  | some info ↦
      if is_pid_alive kill info.pid && connects info.host info.port then some info else none
]

-- `SystemExit`, with the session that was found
unfoldable pub acquire_single_instance_or_die :
    Python → (ℤ → KillAnswer) → (Text → ℤ → Bool) → HubFiles → Result SessionInfo (Unit {0})
acquire_single_instance_or_die py kill connects files =
    elim (existing_session py kill connects files) [ none ↦ ok tt | some info ↦ err info ]

-- `host or DEFAULT_BIND_HOST`, `port or pick_ephemeral_port(h)`
unfoldable pub new_session : Option Text → Option ℤ → ℤ → Text → ℤ → SessionInfo
new_session host port picked token pid = record {
  host = elim host [
    | none ↦ codes "127.0.0.1"
    | some h ↦ if is_empty h then codes "127.0.0.1" else h
  ];
  port = elim port [ none ↦ picked | some p ↦ if is_nonzero p then p else picked ];
  token = token;
  pid = pid;
  protocol_version = pos 1;
}

unfoldable pub write_session : Python → SessionInfo → HubFiles → HubFiles
write_session py info files = record files { session = some (to_json py info) }

unfoldable pub write_pid_file : Python → ℤ → HubFiles → HubFiles
write_pid_file py pid files = record files { pid = some (text_of py (int pid)) }

-- The session that the hub is to serve, which it has announced.
unfoldable pub prepare_session :
    Python → Option Text → Option ℤ → ℤ → Text → ℤ → HubFiles → SessionInfo × HubFiles
prepare_session py host port picked token pid files =
    let info = new_session host port picked token pid in
    (info, write_pid_file py pid (write_session py info files))

unfoldable pub clear_session : HubFiles → HubFiles
clear_session files = record { session = none; pid = none }

-- What the request for the health of a hub comes to: a status, an OSError, or another exception (of
-- http.client, or an OverflowError for the port), which is not caught.
pub data HealthAnswer : Type 0 where
  status : ℕ → HealthAnswer
  unreachable : HealthAnswer
  raises : Text → HealthAnswer

unfoldable pub discover_session :
    Python → (SessionInfo → HealthAnswer) → HubFiles → Result Text (Option SessionInfo)
discover_session py health files = elim (read_session py files) [
  | none ↦ ok none
  | some info ↦ elim (health info) [
    | status n ↦ ok (if n == 200 then some info else none)
    | unreachable ↦ ok none
    | raises e ↦ err e
  ]
]

-- The loop up to the deadline, over what `discover_session` gives in each round.
unfoldable pub poll : List (Result Text (Option SessionInfo)) → Result Text SessionInfo
poll [] = err (codes "HubNotRunning")
poll (err e ∷ rounds) = err e
poll (ok none ∷ rounds) = poll rounds
poll (ok (some info) ∷ rounds) = ok info

-- The answer, and whether a hub was started.
unfoldable pub ensure_hub_running :
    Result Text (Option SessionInfo)
    → List (Result Text (Option SessionInfo))
    → Result Text SessionInfo × Bool
ensure_hub_running (err e) rounds = (err e, false)
ensure_hub_running (ok (some existing)) rounds = (ok existing, false)
ensure_hub_running (ok none) rounds = (poll rounds, true)
