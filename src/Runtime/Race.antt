-- ===== src/Runtime/Race.antt =====
-- Two hubs that start at the same time.
use mathlib.Core.Path.{subst}
use zeno_plugin.Prelude.{
  ℕ, ◌≡◌, ◌≢◌, refl, sym, ◌∙◌, suc, Bool, true, false, Bool-cases, inl, inr, ◌==◌, ◌⊎◌,
  if◌then◌else◌, Option, none, some, arith,
}
use zeno_plugin.Prelude.Text.{Text}
use zeno_plugin.Prelude.Result.{ok}
use zeno_plugin.Prelude.Int.{ℤ, pos}
use zeno_plugin.Manifest.Value.{Python}
use zeno_plugin.Hub.Session.{SessionInfo, to_json}
use zeno_plugin.Runtime.{
  returns, read_session, existing_session, acquire_single_instance_or_die, write_session,
  write_pid_file, new_session, prepare_session, clear_session,
}
use zeno_plugin.Runtime.Processes.{
  Phase, starting, checked, gone, prepared, serving, World, enter, Probe, Step, start, check,
  prepare, listen, stop, Reach, here, next, no_hubs, announced, Sockets, stopped,
}

same : (w : World) (p : ℕ) (ph : Phase) → (enter p ph w).phase p ≡ ph
same w p ph = ground arith

other : (w : World) (p q : ℕ) (ph : Phase) → p ≢ q → (enter q ph w).phase p ≡ w.phase p
other w p q ph apart = ground (arith, apart)

enter_serving :
    (w : World) (p : ℕ) (ph : Phase) (r : ℕ) (info : SessionInfo)
    → (enter p ph w).phase r ≡ serving info
    → (ph ≡ serving info) ⊎ (w.phase r ≡ serving info)
enter_serving w p ph r info at = elim (Bool-cases (r == p)) [
  | inl e ↦ inl (subst (λ b. (if b then ph else w.phase r) ≡ serving info) e at)
  | inr e ↦ inr (subst (λ b. (if b then ph else w.phase r) ≡ serving info) e at)
]

-- No hub serves.
abbrev Nobody : World → Type 0
Nobody w = (r : ℕ) (info : SessionInfo) → w.phase r ≡ serving info → ⊥

enter-Nobody :
    (w : World) (p : ℕ) (ph : Phase)
    → ((info : SessionInfo) → ph ≡ serving info → ⊥)
    → Nobody w
    → Nobody (enter p ph w)
enter-Nobody w p ph idle nobody r info at = elim (enter_serving w p ph r info at) [
  | inl e ↦ idle info e
  | inr before ↦ nobody r info before
]

-- every pid answers, and so does every port
busy : (w : World) → Probe w
busy w = record {
  kill = λ _. returns;
  connects = λ _ _. true;
  alive = λ p info at. refl;
  reached = λ p info at. refl;
}

-- `i` can listen where nothing else does.
abbrev pub usable_for : Sockets → SessionInfo → Bool
usable_for sockets i = sockets.usable i.host i.port

-- While `i` listens `j` cannot.
abbrev pub clash_of : Sockets → SessionInfo → SessionInfo → Bool
clash_of sockets i j = sockets.clash i.host i.port j.host j.port

module _ (py : Python) (p q : ℕ) (apart : p ≢ q) (ph qh : Option Text) (pp qp : Option ℤ)
    (port port' : ℤ) (token token' : Text) (sockets : Sockets)
    (usable : usable_for sockets (new_session ph pp port token (pos (suc p))) ≡ true)
    (usable' : usable_for sockets (new_session qh qp port' token' (pos (suc q))) ≡ true)
    (free : clash_of sockets
        (new_session ph pp port token (pos (suc p)))
        (new_session qh qp port' token' (pos (suc q)))
      ≡ false) where
  abbrev both_started : World
  both_started = enter q starting (enter p starting no_hubs)

  abbrev both_checked : World
  both_checked = enter q checked (enter p checked both_started)

  abbrev first_info : SessionInfo
  first_info = (announced py ph pp port token p both_checked).0

  abbrev one_prepared : World
  one_prepared =
      enter p (prepared first_info)
        (record both_checked { files = (announced py ph pp port token p both_checked).1 })

  abbrev one_serves : World
  one_serves = enter p (serving first_info) one_prepared

  abbrev second_info : SessionInfo
  second_info = (announced py qh qp port' token' q one_serves).0

  abbrev two_prepared : World
  two_prepared =
      enter q (prepared second_info)
        (record one_serves { files = (announced py qh qp port' token' q one_serves).1 })

  abbrev two_serve : World
  two_serve = enter q (serving second_info) two_prepared

  passes :
      (w : World) (probe : Probe w)
      → w.files.session ≡ none
      → acquire_single_instance_or_die py probe.kill probe.connects w.files ≡ ok tt
  unfolding acquire_single_instance_or_die existing_session read_session
  passes w probe e = rw (e, acquire_single_instance_or_die) refl

  one_prepared-Nobody : Nobody one_prepared
  one_prepared-Nobody =
      enter-Nobody
        (record both_checked { files = (announced py ph pp port token p both_checked).1 }) p
        (prepared first_info) (λ i e. cc)
        (enter-Nobody (enter p checked both_started) q checked (λ i e. cc)
          (enter-Nobody both_started p checked (λ i e. cc)
            (enter-Nobody (enter p starting no_hubs) q starting (λ i e. cc)
              (enter-Nobody no_hubs p starting (λ i e. cc) (λ r i e. cc)))))

  only_first :
      (r : ℕ) (info : SessionInfo) → two_prepared.phase r ≡ serving info → first_info ≡ info
  only_first r info at = elim (enter_serving files_of_second q (prepared second_info) r info at) [
    | inl e ↦ absurd (cc)
    | inr at1 ↦ elim (enter_serving one_prepared p (serving first_info) r info at1) [
      | inl e ↦ cc
      | inr at2 ↦ absurd (one_prepared-Nobody r info at2)
    ]
  ]
    where
      files_of_second : World
      files_of_second = record one_serves {
        files = (announced py qh qp port' token' q one_serves).1;
      }

  reached_both_started : Reach py sockets no_hubs both_started
  reached_both_started = next (next here (start p refl)) (start q (ground (arith, apart)))

  reached_both_checked : Reach py sockets no_hubs both_checked
  reached_both_checked =
      next
        (next reached_both_started (
          check p (busy both_started) (ground arith)
            (passes both_started (busy both_started) refl)))
        (check q (busy (enter p checked both_started)) (ground (arith, apart))
          (passes (enter p checked both_started) (busy (enter p checked both_started)) refl))

  reached_one_serves : Reach py sockets no_hubs one_serves
  unfolding prepare_session
  reached_one_serves =
      next (next reached_both_checked (prepare p ph pp port token (ground (arith, apart)))) (
        listen p first_info
          (same (record both_checked { files = (announced py ph pp port token p both_checked).1 }) p
            (prepared first_info))
          (usable, λ r info at. absurd (one_prepared-Nobody r info at)))

  second_waits : one_serves.phase q ≡ checked
  second_waits =
      other one_prepared q p (serving first_info) (λ e. apart (sym e))
      ∙ other both_checked q p (prepared first_info) (λ e. apart (sym e))
      ∙ same (enter p checked both_started) q checked

  reached_two_serve : Reach py sockets no_hubs two_serve
  unfolding prepare_session
  reached_two_serve = next (next reached_one_serves (prepare q qh qp port' token' second_waits)) (
      listen q second_info
        (same (record one_serves { files = (announced py qh qp port' token' q one_serves).1 }) q
          (prepared second_info))
        (
          usable',
          λ r info at.
              subst (λ i. clash_of sockets i second_info ≡ false) (only_first r info at) free,
        ))

  first_serves : two_serve.phase p ≡ serving first_info
  first_serves =
      other two_prepared p q (serving second_info) apart
      ∙ other one_serves p q (prepared second_info) apart
      ∙ same one_prepared p (serving first_info)

-- Two hubs that start together may both come to serve, if their addresses are usable and do not keep
-- each other from listening: both make their check before either has announced its session. The
-- session file then names the second alone; and when the first stops it deletes that file, while the
-- second still serves.
pub two_hubs :
    (py : Python) (sockets : Sockets) (p q : ℕ)
    → p ≢ q
    → (ph qh : Option Text) (pp qp : Option ℤ) (port port' : ℤ) (token token' : Text)
    → usable_for sockets (new_session ph pp port token (pos (suc p))) ≡ true
    → usable_for sockets (new_session qh qp port' token' (pos (suc q))) ≡ true
    → clash_of sockets
        (new_session ph pp port token (pos (suc p)))
        (new_session qh qp port' token' (pos (suc q)))
      ≡ false
    → (w : World) × Reach py sockets no_hubs w
      × (w.phase p ≡ serving (new_session ph pp port token (pos (suc p))))
      × (w.phase q ≡ serving (new_session qh qp port' token' (pos (suc q))))
      × (w.files.session ≡ some (to_json py (new_session qh qp port' token' (pos (suc q)))))
      × Step py sockets w (stopped p w)
      × ((stopped p w).phase q ≡ serving (new_session qh qp port' token' (pos (suc q))))
      × ((stopped p w).files.session ≡ none)
unfolding prepare_session write_session write_pid_file clear_session
two_hubs py sockets p q apart ph qh pp qp port port' token token' usable usable' free =
    let w =
      two_serve py p q apart ph qh pp qp port port' token token' sockets usable usable' free in
    let i = new_session ph pp port token (pos (suc p)) in
    let j = new_session qh qp port' token' (pos (suc q)) in
    let at =
      first_serves py p q apart ph qh pp qp port port' token token' sockets usable usable' free in
    let waits =
      two_prepared py p q apart ph qh pp qp port port' token token' sockets usable usable' free in
    let at' = same waits q (serving j) in
    (
      w,
      reached_two_serve py p q apart ph qh pp qp port port' token token' sockets usable usable'
          free,
      at,
      at',
      refl,
      stop p i at,
      other (record w { files = clear_session w.files }) q p gone (λ e. apart (sym e)) ∙ at',
      refl,
    )
