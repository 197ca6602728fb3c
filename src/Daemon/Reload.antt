-- ===== src/Daemon/Reload.antt =====
-- What runs after a reload, account by account.
use signal2sip.Base.{
  ◌≡◌, refl, sym, ap, subst, ◌∙◌, inl, inr, Bool, Option, none, some, List, [], ◌∷◌, arith, ◌==◌,
  if◌then◌else◌, Bool-cases, Option-cases, is_some, Bytes, eqb, eqb_refl, eqb_iff, ok, err,
}
use signal2sip.Config.Accept.{AccountConfig}
use signal2sip.Config.Load.{DaemonConfig, LoadError}
use signal2sip.Daemon.{
  Accounts, find_config, erase_config, by_name, setup_account, remove_missing, bring_up,
  bring_up_all, Running, reload_config,
}

find_config-erase :
    (a b : Bytes) (cs : Accounts)
    → find_config b (erase_config a cs) ≡ (if eqb b a then none else find_config b cs)
unfolding find_config erase_config
find_config-erase a b [] = ground arith
find_config-erase a b ((d, c) ∷ cs) =
    ground (arith, eqb_iff a d, eqb_iff b a, eqb_iff b d, find_config-erase a b cs)

find_config-remove :
    (new : Accounts) (b : Bytes) (cs : Accounts)
    → find_config b (remove_missing new cs)
      ≡ (if is_some (find_config b new) then find_config b cs else none)
unfolding find_config remove_missing
find_config-remove new b [] = ground arith
find_config-remove new b ((d, c) ∷ cs) = ground (arith, eqb_iff b d, find_config-remove new b cs)

-- What one name has after its own round.
unfoldable pub outcome :
    (AccountConfig → Bool) → AccountConfig → Option AccountConfig → Option AccountConfig
outcome comes_up c none = if comes_up c then some c else none
outcome comes_up c (some old) =
    if old.config_version == c.config_version then some old else if comes_up c then some c else none

find_config-bring_up :
    (comes_up : AccountConfig → Bool) (b : Bytes) (c : AccountConfig) (running : Accounts)
    → find_config b (bring_up comes_up c.name c running)
      ≡ (if eqb b c.name then outcome comes_up c (find_config b running) else find_config b running)
unfolding find_config bring_up setup_account outcome
find_config-bring_up comes_up b c running = ground (
  arith,
  eqb_iff b c.name,
  find_config-erase c.name b running,
  find_config-erase c.name b (erase_config c.name running),
  Option-cases (find_config c.name running),
)

-- Each entry stands under its account's name, and no name comes twice.
unfoldable pub Keyed : Accounts → Type 0
Keyed [] = Unit
Keyed ((b, c) ∷ rest) = (b ≡ c.name) × (find_config b rest ≡ none) × Keyed rest

erased :
    (a b : Bytes) (cs : Accounts)
    → find_config b cs ≡ none
    → find_config b (erase_config a cs) ≡ none
erased a b cs h = ground (arith, find_config-erase a b cs, h)

erase-Keyed : (a : Bytes) (cs : Accounts) → Keyed cs → Keyed (erase_config a cs)
unfolding Keyed erase_config
erase-Keyed a [] h = tt
erase-Keyed a ((b, c) ∷ rest) h = elim (Bool-cases (eqb a b)) [
  | inl e ↦ rw e (erase-Keyed a rest h.2)
  | inr e ↦ rw e (h.0, erased a b rest h.1, erase-Keyed a rest h.2)
]

by_name-Keyed : (cs : List AccountConfig) → Keyed (by_name cs)
unfolding Keyed by_name
by_name-Keyed [] = tt
by_name-Keyed (c ∷ rest) = (
  refl,
  ground (arith, find_config-erase c.name c.name (by_name rest), eqb_refl c.name),
  erase-Keyed c.name (by_name rest) (by_name-Keyed rest),
)

-- What one name has after all rounds.
unfoldable pub expected :
    (AccountConfig → Bool) → Option AccountConfig → Option AccountConfig → Option AccountConfig
expected comes_up none before = before
expected comes_up (some c) before = outcome comes_up c before

find_config-bring_up_all :
    (comes_up : AccountConfig → Bool) (b : Bytes) (new running : Accounts)
    → Keyed new
    → find_config b (bring_up_all comes_up new running)
      ≡ expected comes_up (find_config b new) (find_config b running)
unfolding find_config bring_up_all expected Keyed
find_config-bring_up_all comes_up b [] running h = refl
find_config-bring_up_all comes_up b ((m, c) ∷ rest) running h =
    let first : find_config b (bring_up comes_up m c running)
        ≡ (if eqb b m then outcome comes_up c (find_config b running) else find_config b running) =
      subst
        (λ k.
          find_config b (bring_up comes_up k c running)
          ≡ (if eqb b k then outcome comes_up c (find_config b running) else find_config b running))
        (sym h.0) (find_config-bring_up comes_up b c running) in
    find_config-bring_up_all comes_up b rest (bring_up comes_up m c running) h.2
    ∙ ground (arith, first, h.1, eqb_iff b m)

-- What runs for one name after a reload, from its new configuration and from what ran before.
unfoldable pub reloaded :
    (AccountConfig → Bool) → Option AccountConfig → Option AccountConfig → Option AccountConfig
reloaded comes_up none before = none
reloaded comes_up (some c) none = if comes_up c then some c else none
reloaded comes_up (some c) (some old) =
    if old.config_version == c.config_version then some old else if comes_up c then some c else none

after :
    (comes_up : AccountConfig → Bool) (n before : Option AccountConfig)
    → expected comes_up n (if is_some n then before else none) ≡ reloaded comes_up n before
unfolding expected outcome reloaded
after comes_up none before = refl
after comes_up (some c) none = refl
after comes_up (some c) (some old) = refl

-- After a reload of a configuration that loads, an account that is not in it does not run; one
-- that is in it and runs with the same version is left running as it is; any other in it runs
-- with its new configuration if it comes up, and else not at all. Each account's outcome depends
-- on no other account. A configuration that does not load changes nothing.
pub find_config-reload_config :
    (comes_up : AccountConfig → Bool) (daemon : DaemonConfig) (e : LoadError) (running : Running)
    (b : Bytes)
    → (find_config b (reload_config comes_up (ok daemon) running).accounts
        ≡ reloaded comes_up
            (find_config b (by_name daemon.accounts))
            (find_config b running.accounts))
      × (reload_config comes_up (err e) running ≡ running)
unfolding reload_config
find_config-reload_config comes_up daemon e running b =
    let new : Accounts = by_name daemon.accounts in
    let kept : Accounts = remove_missing new running.accounts in
    (
      find_config-bring_up_all comes_up b new kept (by_name-Keyed daemon.accounts)
          ∙ ap (expected comes_up (find_config b new)) (find_config-remove new b running.accounts)
          ∙ after comes_up (find_config b new) (find_config b running.accounts),
      refl,
    )
