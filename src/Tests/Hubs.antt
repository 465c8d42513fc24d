-- ===== src/Tests/Hubs.antt =====
-- Hubs that start and stop, with a codec for their sessions.
use zeno_plugin.Prelude.{
  ℕ, zero, suc, ◌≡◌, refl, ap, ◌∙◌, Bool, ◌&&◌, true, false, Option, none, some, List, [], ◌∷◌,
  ◌++◌, arith, length, take, drop, take-append, drop-append, ◌==◌,
}
use zeno_plugin.Prelude.Text.{Text, codes, text_eq}
use zeno_plugin.Prelude.Result.{ok}
use zeno_plugin.Prelude.Int.{ℤ, pos, negsuc}
use zeno_plugin.Manifest.Value.{Json, int, str, obj, field, end, Python}
use zeno_plugin.Hub.Session.{SessionInfo, session_json, to_json}
use zeno_plugin.Runtime.{
  HubFiles, HealthAnswer, status, lookup_error, new_session, existing_session, read_session,
  acquire_single_instance_or_die, prepare_session, discover_session, clear_session,
}
use zeno_plugin.Runtime.Processes.{
  starting, checked, prepared, serving, prepare, listen, World, enter, Probe, Step, start, check,
  Reach, no_hubs, Sockets, stopped,
}
use zeno_plugin.Runtime.Invariant.{is_hub, Codec, SerialReach, begin, after}
use zeno_plugin.Runtime.Single.{Refuses, SerialReach-single}
use zeno_plugin.Runtime.Race.{two_hubs}
use zeno_plugin.Runtime.Found.{found_by, discover_session-prepare_session}

abbrev written : ℤ → List ℕ → List ℕ
written (pos n) rest = 0 ∷ n ∷ rest
written (negsuc n) rest = 1 ∷ n ∷ rest

abbrev read : ℕ → ℕ → ℤ
read zero n = pos n
read (suc k) n = negsuc n

-- the host with its length in front, the numbers with their signs, and the token
abbrev dumps : Json → List ℕ
dumps
      (obj (
        field _ (str host) (
          field _
            (int pid)
            (field _ (int port) (field _ (int version) (field _ (str token) end)))))) =
    length host ∷ (host ++ written pid (written port (written version token)))
dumps _ = []

abbrev session_after : Text → List ℕ → Option Json
session_after host (a ∷ b ∷ c ∷ d ∷ e ∷ f ∷ token) = some (
    session_json record {
      host = host;
      pid = read a b;
      port = read c d;
      protocol_version = read e f;
      token = token;
    })
session_after host _ = none

abbrev loads : List ℕ → Option Json
loads [] = none
loads (n ∷ rest) = session_after (take n rest) (drop n rest)

abbrev codec : Python
codec = record { loads = loads; dumps = dumps; render = λ _. []; int_of_text = λ _. none }

read_back :
    (host token : Text) (pid port version : ℤ)
    → session_after host (written pid (written port (written version token)))
      ≡ some (
          session_json record {
            host = host;
            pid = pid;
            port = port;
            protocol_version = version;
            token = token;
          })
read_back host token (pos a) (pos b) (pos c) = refl
read_back host token (pos a) (pos b) (negsuc c) = refl
read_back host token (pos a) (negsuc b) (pos c) = refl
read_back host token (pos a) (negsuc b) (negsuc c) = refl
read_back host token (negsuc a) (pos b) (pos c) = refl
read_back host token (negsuc a) (pos b) (negsuc c) = refl
read_back host token (negsuc a) (negsuc b) (pos c) = refl
read_back host token (negsuc a) (negsuc b) (negsuc c) = refl

codec-Codec : Codec codec
codec-Codec s =
    let rest = written s.pid (written s.port (written s.protocol_version s.token)) in
    ap (λ h. session_after h (drop (length s.host) (s.host ++ rest))) (take-append s.host rest)
    ∙ ap (session_after s.host) (drop-append s.host rest)
    ∙ read_back s.host s.token s.pid s.port s.protocol_version

abbrev same_port : ℤ → ℤ → Bool
same_port (pos m) (pos n) = m == n
same_port (negsuc m) (negsuc n) = m == n
same_port _ _ = false

abbrev session : SessionInfo
session = record {
  host = codes "127.0.0.1";
  port = pos 4711;
  token = codes "secret";
  pid = pos 1;
  protocol_version = pos 1;
}

abbrev checked_world : World
checked_world = enter 0 checked (enter 0 starting no_hubs)

abbrev announced_files : HubFiles
announced_files =
    (prepare_session codec none none (pos 4711) (codes "secret") (pos 1) checked_world.files).1

abbrev prepared_world : World
prepared_world =
    enter 0
      (prepared
        (prepare_session codec none none (pos 4711) (codes "secret") (pos 1) checked_world.files).0)
      (record checked_world { files = announced_files })

abbrev serving_world : World
serving_world = enter 0 (serving session) prepared_world

-- Every address can be had, by one hub at a time.
abbrev sockets : Sockets
sockets = record {
  usable = λ host port. true;
  clash = λ host port host' port'. text_eq host host' && same_port port port';
}

nobody : Probe (enter 0 starting no_hubs)
nobody = record {
  kill = λ _. lookup_error;
  connects = λ _ _. false;
  alive = λ p info at. absurd (idle p info at);
  reached = λ p info at. absurd (idle p info at);
}
  where
    idle : (p : ℕ) (info : SessionInfo) → (enter 0 starting no_hubs).phase p ≡ serving info → ⊥
    idle zero info at = cc
    idle (suc p) info at = ground arith

one_hub : SerialReach codec sockets no_hubs serving_world
unfolding prepare_session new_session existing_session acquire_single_instance_or_die read_session
one_hub =
    after
      (after
        (after (after begin (start 0 refl) tt) (check 0 nobody refl refl)
          (λ q h. absurd (none_yet q h)))
        (prepare 0 none none (pos 4711) (codes "secret") refl) tt)
      (listen 0 session refl (refl, λ q other at. absurd (no_other q other at))) tt
  where
    none_yet : (q : ℕ) → is_hub ((enter 0 starting no_hubs).phase q) ≡ true → ⊥
    none_yet zero h = cc
    none_yet (suc q) h = ground arith

    no_other : (q : ℕ) (other : SessionInfo) → prepared_world.phase q ≡ serving other → ⊥
    no_other zero other at = cc
    no_other (suc q) other at = ground arith

SerialReach-single_example :
    ((q : ℕ) → is_hub (serving_world.phase q) ≡ (q == 0))
    × Refuses codec serving_world (serving session)
SerialReach-single_example =
    SerialReach-single codec sockets codec-Codec serving_world one_hub 0 refl

abbrev first_hub : SessionInfo
unfolding new_session
first_hub = new_session none none (pos 4711) (codes "a") (pos 1)

abbrev second_hub : SessionInfo
unfolding new_session
second_hub = new_session none none (pos 4712) (codes "b") (pos 2)

two_hubs_example :
    (w : World) × Reach codec sockets no_hubs w
    × (w.phase 0 ≡ serving first_hub)
    × (w.phase 1 ≡ serving second_hub)
    × (w.files.session ≡ some (to_json codec second_hub))
    × Step codec sockets w (stopped 0 w)
    × ((stopped 0 w).phase 1 ≡ serving second_hub)
    × ((stopped 0 w).files.session ≡ none)
unfolding text_eq new_session
two_hubs_example =
    two_hubs codec sockets 0 1 (λ e. absurd (omega (arith, e))) none none none none (pos 4711)
      (pos 4712) (codes "a") (codes "b") refl refl refl

abbrev no_files : HubFiles
no_files = record { session = none; pid = none }

abbrev answer : SessionInfo → HealthAnswer
answer info = status 200

discover_session-prepare_session_example :
    let (info, announced) =
      prepare_session codec none none (pos 4711) (codes "secret") (pos 1) no_files in
    (discover_session codec answer announced ≡ found_by (answer info) info)
    × (discover_session codec answer (clear_session announced) ≡ ok none)
discover_session-prepare_session_example =
    discover_session-prepare_session codec codec-Codec none none (pos 4711) (codes "secret") (pos 1)
      answer no_files
