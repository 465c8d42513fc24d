-- ===== src/Runtime/Invariant.antt =====
-- What the hubs of a machine keep while their checks do not overlap.
use mathlib.Core.Path.{subst}
use zeno_plugin.Prelude.{
  ℕ, suc, ◌≡◌, refl, sym, ap, ◌∙◌, inl, inr, Bool, true, false, Option, none, some, arith,
  if◌then◌else◌, ◌==◌, Bool-cases, is_empty,
}
use zeno_plugin.Prelude.Text.{Text, codes}
use zeno_plugin.Prelude.Result.{ok}
use zeno_plugin.Prelude.Int.{ℤ, pos}
use zeno_plugin.Manifest.Value.{Python}
use zeno_plugin.Hub.Session.{SessionInfo, session_json, to_json, from_json, from_json-to_json}
use zeno_plugin.Runtime.{
  HubFiles, is_pid_alive, read_session, existing_session, acquire_single_instance_or_die,
  new_session, write_session, write_pid_file, prepare_session, clear_session,
}
use zeno_plugin.Runtime.Processes.{
  Phase, absent, starting, checked, gone, prepared, serving, World, enter, Probe, Step, start,
  check, refuse, prepare, listen, bind_fails, stop, crash, Sockets, no_hubs, announced,
}

-- From the check on a process counts as a hub.
abbrev pub is_hub : Phase → Bool
is_hub checked = true
is_hub (prepared info) = true
is_hub (serving info) = true
is_hub _ = false

-- The session that a hub has announced.
abbrev pub Announces : Phase → SessionInfo → Type 0
Announces (prepared i) info = i ≡ info
Announces (serving i) info = i ≡ info
Announces _ info = ⊥

-- No process stands between its check and its listening.
abbrev pub Quiet : World → Type 0
Quiet w = (q : ℕ) → is_hub (w.phase q) ≡ true → (info : SessionInfo) × (w.phase q ≡ serving info)

module _ (py : Python) (sockets : Sockets) where
  -- The check is made only while the world is quiet.
  abbrev pub Serial : {t u : World} → Step py sockets t u → Type 0
  Serial (check {w} p probe at found) = Quiet w
  Serial _ = Unit

  pub data SerialReach (s : World) : World → Type 0 where
    begin : SerialReach s s
    after :
        {t u : World} → SerialReach s t → (st : Step py sockets t u) → Serial st → SerialReach s u

module _ (py : Python) where
  -- The session file names the hub `p`, and a reader gets what it has announced.
  abbrev pub Named : HubFiles → ℕ → SessionInfo → Type 0
  Named files p info =
      (files.session ≡ some (to_json py info))
      × (info.pid ≡ pos (suc p))
      × (from_json py (to_json py info) ≡ some info)

  pub record Single (w : World) : Type 0 where
    pub one : (p q : ℕ) → is_hub (w.phase p) ≡ true → is_hub (w.phase q) ≡ true → p ≡ q
    pub named : (p : ℕ) (info : SessionInfo) → Announces (w.phase p) info → Named w.files p info

  abbrev pub Codec : Type 0
  Codec = (s : SessionInfo) → py.loads (py.dumps (session_json s)) ≡ some (session_json s)

pub differ : {b : Bool} → b ≡ false → b ≡ true → ⊥
differ f t = cc

module _ (py : Python) (codec : Codec py) where
  host_given : (h : Text) → is_empty (if is_empty h then codes "127.0.0.1" else h) ≡ false
  host_given h = ground arith

  pub readable :
      (host : Option Text) (port : Option ℤ) (picked : ℤ) (token : Text) (pid : ℤ)
      → let info = new_session host port picked token pid in
        from_json py (to_json py info) ≡ some info
  unfolding new_session
  readable none port picked token pid = from_json-to_json py _ (codec _) refl refl
  readable (some h) port picked token pid = from_json-to_json py _ (codec _) (host_given h) refl

  alive_pid :
      (w : World) (probe : Probe w) (p : ℕ) (info : SessionInfo)
      → w.phase p ≡ serving info
      → info.pid ≡ pos (suc p)
      → is_pid_alive probe.kill info.pid ≡ true
  unfolding is_pid_alive
  alive_pid w probe p info at pid =
      let named : (suc p == 0) ≡ false = ground arith in rw (pid, named, probe.alive p info at) refl

  -- A hub that serves is found by the check, whoever makes it.
  pub found :
      (w : World) (probe : Probe w) (p : ℕ) (info : SessionInfo)
      → Single py w
      → w.phase p ≡ serving info
      → existing_session py probe.kill probe.connects w.files ≡ some info
  unfolding existing_session read_session from_json
  found w probe p info single at =
      let (written, pid, back) =
        single.named p info (subst (λ ph. Announces ph info) (sym at) refl) in
      let read : read_session py w.files ≡ some info = rw (written, read_session) back in
      let alive = alive_pid w probe p info at pid in
      rw (read, existing_session) (rw (alive, probe.reached p info at) refl)

  -- So the check of another passes only where no hub serves.
  check_alone :
      (w : World) (probe : Probe w)
      → Single py w
      → Quiet w
      → acquire_single_instance_or_die py probe.kill probe.connects w.files ≡ ok tt
      → (q : ℕ) → is_hub (w.phase q) ≡ false
  unfolding acquire_single_instance_or_die
  check_alone w probe single quiet passed q = elim (Bool-cases (is_hub (w.phase q))) [
    | inr f ↦ f
    | inl t ↦
        let (info, at) = quiet q t in
        let other = found w probe q info single at in absurd (refuses other passed)
  ]
    where
      refuses :
          {info : SessionInfo}
          → existing_session py probe.kill probe.connects w.files ≡ some info
          → acquire_single_instance_or_die py probe.kill probe.connects w.files ≡ ok tt
          → ⊥
      refuses e f = cc

  Announces-is_hub : (ph : Phase) (info : SessionInfo) → Announces ph info → is_hub ph ≡ true
  Announces-is_hub absent info a = absurd a
  Announces-is_hub starting info a = absurd a
  Announces-is_hub checked info a = absurd a
  Announces-is_hub gone info a = absurd a
  Announces-is_hub (prepared i) info a = refl
  Announces-is_hub (serving i) info a = refl

  -- a process that is no hub enters a phase in which it is none
  aside-Single :
      (w : World) (p : ℕ) (ph : Phase) → is_hub ph ≡ false → Single py w → Single py (enter p ph w)
  aside-Single w p ph out single = record {
    one = λ a b ha hb. single.one a b (kept a ha) (kept b hb);
    named = λ a info an. renamed a info an;
  }
    where
      kept : (q : ℕ) → is_hub ((enter p ph w).phase q) ≡ true → is_hub (w.phase q) ≡ true
      kept q h = ground (arith, out)

      renamed :
          (q : ℕ) (info : SessionInfo)
          → Announces ((enter p ph w).phase q) info
          → Named py w.files q info
      renamed q info an = elim (Bool-cases (q == p)) [
        | inl t ↦ absurd (
            differ out (
              Announces-is_hub ph info
                (subst (λ b. Announces (if b then ph else w.phase q) info) t an)))
        | inr f ↦
            single.named q info (subst (λ b. Announces (if b then ph else w.phase q) info) f an)
      ]

  -- the only hub there is enters a phase
  enter-Single :
      (w : World) (p : ℕ) (ph : Phase) (files : HubFiles)
      → ((q : ℕ) → is_hub (w.phase q) ≡ true → q ≡ p)
      → ((info : SessionInfo) → Announces ph info → Named py files p info)
      → Single py (enter p ph (record w { files = files }))
  enter-Single w p ph files only name = record {
    one = λ a b ha hb. mine a ha ∙ sym (mine b hb);
    named = λ a info an.
        let at = mine a (Announces-is_hub _ info an) in
        subst (λ q. Named py files q info) (sym at)
          (name info (subst (λ c. Announces c info) (there a at) an));
  }
    where
      mine : (q : ℕ) → is_hub ((enter p ph w).phase q) ≡ true → q ≡ p
      mine q h = elim (Bool-cases (q == p)) [
        | inl t ↦ ground arith
        | inr f ↦ only q (subst (λ b. is_hub (if b then ph else w.phase q) ≡ true) f h)
      ]

      there : (q : ℕ) → q ≡ p → (enter p ph w).phase q ≡ ph
      there q e = ground arith

  announced-Named :
      (host : Option Text) (port : Option ℤ) (picked : ℤ) (token : Text) (p : ℕ) (w : World)
      → Named py
          (announced py host port picked token p w).1
          p
          (announced py host port picked token p w).0
  unfolding prepare_session write_session write_pid_file new_session
  announced-Named host port picked token p w =
      (refl, refl, readable host port picked token (pos (suc p)))

  Step-Single :
      {w u : World} {sockets : Sockets} (st : Step py sockets w u)
      → Serial py sockets st
      → Single py w
      → Single py u
  Step-Single (start {w} p at) serial single = aside-Single w p starting refl single
  Step-Single (refuse {w} p probe other at refused) serial single =
      aside-Single w p gone refl single
  Step-Single (crash {w} p) serial single = aside-Single w p gone refl single
  Step-Single (check {w} p probe at passed) serial single =
      enter-Single w p checked w.files
        (λ q h. absurd (differ (check_alone w probe single serial passed q) h)) (λ info a. absurd a)
  Step-Single (prepare {w} p host port picked token at) serial single =
      enter-Single w p _ _ (λ q h. single.one q p h (ap is_hub at))
        (λ info a.
          subst (Named py (announced py host port picked token p w).1 p) a
            (announced-Named host port picked token p w))
  Step-Single (bind_fails {w} p info at taken) serial single = aside-Single w p gone refl single
  Step-Single (listen {w} p info at bound) serial single =
      enter-Single w p (serving info) w.files (λ q h. single.one q p h (ap is_hub at))
        (λ i a. single.named p i (subst (λ ph. Announces ph i) (sym at) a))
  Step-Single (stop {w} p info at) serial single =
      enter-Single w p gone (clear_session w.files) (λ q h. single.one q p h (ap is_hub at))
        (λ i a. absurd a)

  no_hubs-Single : Single py no_hubs
  no_hubs-Single = record { one = λ p q h k. absurd cc; named = λ p info a. absurd a }

  pub Reach-Single :
      {sockets : Sockets} {w : World} → SerialReach py sockets no_hubs w → Single py w
  Reach-Single begin = no_hubs-Single
  Reach-Single (after r st serial) = Step-Single st serial (Reach-Single r)
