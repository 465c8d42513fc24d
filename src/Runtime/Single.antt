-- ===== src/Runtime/Single.antt =====
-- When one hub runs at most.
use mathlib.Core.Path.{subst}
use zeno_plugin.Prelude.{ℕ, ◌≡◌, refl, sym, ◌∙◌, inl, inr, true, false, arith, ◌==◌, Bool-cases}
use zeno_plugin.Prelude.Result.{err}
use zeno_plugin.Manifest.Value.{Python}
use zeno_plugin.Runtime.{acquire_single_instance_or_die}
use zeno_plugin.Runtime.Processes.{
  Phase, absent, starting, checked, gone, prepared, serving, World, Probe, Sockets, no_hubs,
}
use zeno_plugin.Runtime.Invariant.{is_hub, Codec, SerialReach, Single, Reach-Single, found, differ}

-- Where a hub serves, whoever checks is refused with the session of that hub.
abbrev pub Refuses : Python → World → Phase → Type 0
Refuses py w (serving info) =
    (probe : Probe w)
    → acquire_single_instance_or_die py probe.kill probe.connects w.files ≡ err info
Refuses py w _ = Unit

-- In every run in which no process makes its check while another stands between its own check and
-- its listening, whatever starts, stops, crashes and fails to listen: if the process `p` is a hub, no other process
-- is one, and if `p` serves, the session file leads to it, so that every check is refused with its
-- session. The JSON codec is supposed to read back the sessions that it wrote.
pub SerialReach-single :
    (py : Python) (sockets : Sockets)
    → Codec py
    → (w : World) → SerialReach py sockets no_hubs w
    → (p : ℕ) → is_hub (w.phase p) ≡ true
    → ((q : ℕ) → is_hub (w.phase q) ≡ (q == p)) × Refuses py w (w.phase p)
unfolding acquire_single_instance_or_die
SerialReach-single py sockets codec w r p hub =
    let single = Reach-Single py codec r in ((λ q. alone single q), refuses single (w.phase p) refl)
  where
    alone : Single py w → (q : ℕ) → is_hub (w.phase q) ≡ (q == p)
    alone single q = elim (Bool-cases (is_hub (w.phase q))) [
      | inl t ↦ let e = single.one q p t hub in t ∙ sym (ground arith)
      | inr f ↦ elim (Bool-cases (q == p)) [
        | inr apart ↦ f ∙ sym apart
        | inl e ↦
            let at : q ≡ p = ground arith in
            absurd (differ (subst (λ k. is_hub (w.phase k) ≡ false) at f) hub)
      ]
    ]

    refuses : Single py w → (ph : Phase) → w.phase p ≡ ph → Refuses py w ph
    refuses single absent at = tt
    refuses single starting at = tt
    refuses single checked at = tt
    refuses single gone at = tt
    refuses single (prepared info) at = tt
    refuses single (serving info) at =
        λ probe. rw (found py codec w probe p info single at, acquire_single_instance_or_die) refl
