-- ===== src/Runtime/Processes.antt =====
-- The hubs of one machine, one step of one process at a time, as `main` of chimera_hub/__main__.py
-- takes them. The process with number `p` has the pid `p + 1`.
use zeno_plugin.Prelude.{ℕ, suc, ◌≡◌, ◌⊎◌, Bool, true, false, Option, none, if◌then◌else◌, ◌==◌}
use zeno_plugin.Prelude.Text.{Text}
use zeno_plugin.Prelude.Result.{ok, err}
use zeno_plugin.Prelude.Int.{ℤ, pos}
use zeno_plugin.Manifest.Value.{Python}
use zeno_plugin.Hub.Session.{SessionInfo}
use zeno_plugin.Runtime.{
  KillAnswer, returns, HubFiles, acquire_single_instance_or_die, prepare_session, clear_session,
}

-- `checked` has found no other hub, `prepared` has announced its session, `serving` listens.
pub data Phase : Type 0 where
  absent starting checked gone : Phase
  prepared : SessionInfo → Phase
  serving : SessionInfo → Phase

pub record World : Type 0 where
  pub files : HubFiles
  pub phase : ℕ → Phase

abbrev pub enter : ℕ → Phase → World → World
enter p ph w = record w { phase = λ q. if q == p then ph else w.phase q }

-- What a process sees of the others: a process that runs is alive, a hub that serves can be
-- connected to. Nothing is said of other pids and ports.
pub record Probe (w : World) : Type 0 where
  pub kill : ℤ → KillAnswer
  pub connects : Text → ℤ → Bool
  pub alive : (p : ℕ) (info : SessionInfo) → w.phase p ≡ serving info → kill (pos (suc p)) ≡ returns
  pub reached :
      (p : ℕ) (info : SessionInfo) → w.phase p ≡ serving info → connects info.host info.port ≡ true

-- Where `make_server` can listen, what other programs do included, and whether a hub that listens at
-- the first address and port keeps another from the second.
pub record Sockets : Type 0 where
  pub usable : Text → ℤ → Bool
  pub clash : Text → ℤ → Text → ℤ → Bool

-- `make_server` returns.
abbrev pub Bound : Sockets → World → SessionInfo → Type 0
Bound sockets w info =
    (sockets.usable info.host info.port ≡ true)
    × ((q : ℕ) (other : SessionInfo)
        → w.phase q ≡ serving other
        → sockets.clash other.host other.port info.host info.port ≡ false)

-- `make_server` raises: the address is invalid or taken.
abbrev pub Taken : Sockets → World → SessionInfo → Type 0
Taken sockets w info =
    (sockets.usable info.host info.port ≡ false)
    ⊎ ((q : ℕ) × (other : SessionInfo) × (w.phase q ≡ serving other)
        × (sockets.clash other.host other.port info.host info.port ≡ true))

-- What is left of a hub that has stopped in order.
abbrev pub stopped : ℕ → World → World
stopped p w = enter p gone (record w { files = clear_session w.files })

module _ (py : Python) where
  abbrev pub announced : Option Text → Option ℤ → ℤ → Text → ℕ → World → SessionInfo × HubFiles
  announced host port picked token p w =
      prepare_session py host port picked token (pos (suc p)) w.files

module _ (py : Python) (sockets : Sockets) where
  pub data Step : World → World → Type 0 where
    start : {w : World} (p : ℕ) → w.phase p ≡ absent → Step w (enter p starting w)
    check :
        {w : World} (p : ℕ) (probe : Probe w)
        → w.phase p ≡ starting
        → acquire_single_instance_or_die py probe.kill probe.connects w.files ≡ ok tt
        → Step w (enter p checked w)
    refuse :
        {w : World} (p : ℕ) (probe : Probe w) (found : SessionInfo)
        → w.phase p ≡ starting
        → acquire_single_instance_or_die py probe.kill probe.connects w.files ≡ err found
        → Step w (enter p gone w)
    prepare :
        {w : World} (p : ℕ) (host : Option Text) (port : Option ℤ) (picked : ℤ) (token : Text)
        → w.phase p ≡ checked
        → Step w (
            enter p
              (prepared (announced py host port picked token p w).0)
              (record w { files = (announced py host port picked token p w).1 }))
    listen :
        {w : World} (p : ℕ) (info : SessionInfo)
        → w.phase p ≡ prepared info
        → Bound sockets w info
        → Step w (enter p (serving info) w)
    -- The exception passes `main`, before its `try`: the session file stays.
    bind_fails :
        {w : World} (p : ℕ) (info : SessionInfo)
        → w.phase p ≡ prepared info
        → Taken sockets w info
        → Step w (enter p gone w)
    stop :
        {w : World} (p : ℕ) (info : SessionInfo) → w.phase p ≡ serving info → Step w (stopped p w)
    -- Any other exception, or a kill.
    crash : {w : World} (p : ℕ) → Step w (enter p gone w)

  pub data Reach (s : World) : World → Type 0 where
    here : Reach s s
    next : {t u : World} → Reach s t → Step t u → Reach s u

abbrev pub no_hubs : World
no_hubs = record { files = record { session = none; pid = none }; phase = λ p. absent }
