-- ===== src/Health/Sweep.antt =====
-- A sweep over all running VMs (`check_all` of pool/health.rs) is one check of each.
use visor.Prelude.{
  ℕ, ◌≡◌, refl, ap, ◌∙◌, true, false, ◌⊎◌, inl, inr, List, [], ◌∷◌, ◌++◌, Option-cases, Option,
  none, some, arith,
}
use mathlib.Core.Logic.{ite}
use mathlib.Core.List.{append-nil}
use visor.Prelude.Maps
use visor.Prelude.Texts.{Text, text_discrete}
use visor.Health.{
  HealthStatus, healthy, unhealthy, unknown, VmHealthState, VmEvent, recovered, went_unhealthy,
  States, check_vm, update, entry_or_new, is_active, check_each, check_all,
}

-- The CID under which a VM runs.
unfoldable pub cid_of : Text → List (Text × ℕ) → Option ℕ
cid_of vm_id [] = none
cid_of vm_id ((id, cid) ∷ vms) = ite (text_discrete id vm_id) (some cid) (cid_of vm_id vms)

-- The provider lists a VM once.
abbrev pub Once : List (Text × ℕ) → Type 0
Once [] = Unit {0}
Once ((id, cid) ∷ vms) = (cid_of id vms ≡ none) × Once vms

abbrev pub subject : VmEvent → Text
subject (recovered vm_id) = vm_id
subject (went_unhealthy vm_id reason failures) = vm_id

-- The events of one VM.
unfoldable pub about : Text → List VmEvent → List VmEvent
about vm_id [] = []
about vm_id (e ∷ es) = ite (text_discrete (subject e) vm_id) (e ∷ about vm_id es) (about vm_id es)

about-append :
    (vm_id : Text) (es fs : List VmEvent)
    → about vm_id (es ++ fs) ≡ about vm_id es ++ about vm_id fs
unfolding about
about-append vm_id [] fs = refl
about-append vm_id (e ∷ es) fs = ground (arith, about-append vm_id es fs)

-- `update` sends events of its own VM only.
about-update :
    (threshold : ℕ) (id vm_id : Text) (entry : VmHealthState) (s : HealthStatus)
    → about vm_id (update threshold id entry s).1
      ≡ ite (text_discrete id vm_id) (update threshold id entry s).1 []
unfolding about update
about-update threshold id vm_id entry healthy = ground arith
about-update threshold id vm_id entry unknown = ground arith
about-update threshold id vm_id entry (unhealthy reason) = ground arith

is_active-cid_of :
    (vms : List (Text × ℕ)) (vm_id : Text) (cid : ℕ)
    → cid_of vm_id vms ≡ some cid
    → is_active vms vm_id ≡ true
unfolding is_active cid_of
is_active-cid_of [] vm_id cid e = cc
is_active-cid_of ((id, c) ∷ vms) vm_id cid e = ground (arith, is_active-cid_of vms vm_id cid)

is_active-none :
    (vms : List (Text × ℕ)) (vm_id : Text) → cid_of vm_id vms ≡ none → is_active vms vm_id ≡ false
unfolding is_active cid_of
is_active-none [] vm_id e = refl
is_active-none ((id, c) ∷ vms) vm_id e = ground (arith, is_active-none vms vm_id)

module _ (ping : ℕ → Option Text) (threshold : ℕ) where
  -- The check of one VM, from what is known of it.
  abbrev pub checked : Text → ℕ → Option VmHealthState → VmHealthState × List VmEvent
  checked vm_id cid known = update threshold vm_id (entry_or_new known) (check_vm (ping cid))

  abbrev known : States → Text → Option VmHealthState
  known states vm_id = Maps.get text_discrete vm_id states

  each_absent :
      (vms : List (Text × ℕ)) (states : States) (vm_id : Text)
      → cid_of vm_id vms ≡ none
      → let (states', sent) = check_each ping threshold vms states in
        (known states' vm_id ≡ known states vm_id) × (about vm_id sent ≡ [])
  unfolding check_each cid_of
  each_absent [] states vm_id e = (refl, unfold about in refl)
  each_absent ((id, c) ∷ vms) states vm_id e =
      let entry = checked id c (known states id) in
      let states₁ = Maps.insert text_discrete id entry.0 states in
      ground (
        arith,
        each_absent vms states₁ vm_id,
        Maps.get-insert text_discrete id vm_id entry.0 states,
        about-append vm_id entry.1 (check_each ping threshold vms states₁).1,
        about-update threshold id vm_id (entry_or_new (known states id)) (check_vm (ping c)),
      )

  each_present :
      (vms : List (Text × ℕ)) (states : States) (vm_id : Text) (cid : ℕ)
      → Once vms
      → cid_of vm_id vms ≡ some cid
      → let (states', sent) = check_each ping threshold vms states in
        (known states' vm_id ≡ some (checked vm_id cid (known states vm_id)).0)
        × (about vm_id sent ≡ (checked vm_id cid (known states vm_id)).1)
  unfolding check_each cid_of
  each_present [] states vm_id cid o e = absurd (cc)
  each_present ((id, c) ∷ vms) states vm_id cid o e =
      let entry = checked id c (known states id) in
      let states₁ = Maps.insert text_discrete id entry.0 states in
      let rest = (check_each ping threshold vms states₁).1 in
      let here = Maps.get-insert text_discrete id vm_id entry.0 states in
      let split = about-append vm_id entry.1 rest in
      let own =
        about-update threshold id vm_id (entry_or_new (known states id)) (check_vm (ping c)) in
      elim (text_discrete id vm_id) [
        | yes hit ↦
            ground (arith, hit, each_absent vms states₁ vm_id, here, split, own, append-nil entry.1)
        | no miss ↦ ground (arith, miss, each_present vms states₁ vm_id cid o.1, here, split, own)
      ]

-- A sweep checks each running VM once, from what was known of it, and forgets the others: afterwards a
-- VM that runs has the state that its check gives, and the events about it are those of its check;
-- one that does not run has no state, and no event is about it.
pub check_all_pointwise :
    (ping : ℕ → Option Text) (threshold : ℕ) (running : List (Text × ℕ)) (states : States)
    (vm_id : Text)
    → Once running
    → let (states', sent) = check_all ping threshold running states in
      ((cid_of vm_id running ≡ none)
        × (Maps.get text_discrete vm_id states' ≡ none)
        × (about vm_id sent ≡ []))
      ⊎ ((cid : ℕ) × (cid_of vm_id running ≡ some cid)
          × (Maps.get text_discrete vm_id states'
              ≡ some (checked ping threshold vm_id cid (Maps.get text_discrete vm_id states)).0)
          × (about vm_id sent
              ≡ (checked ping threshold vm_id cid (Maps.get text_discrete vm_id states)).1))
unfolding check_all
check_all_pointwise ping threshold running states vm_id o =
    let kept = Maps.retain text_discrete (is_active running) states in
    let same = Maps.get-retain text_discrete (is_active running) vm_id states in
    elim (Option-cases (cid_of vm_id running)) [
      | inl absent ↦
          let (stays, silent) = each_absent ping threshold running kept vm_id absent in
          inl (absent, stays ∙ same ∙ rw (is_active-none running vm_id absent), silent)
      | inr (cid, present) ↦
          let old = same ∙ rw (is_active-cid_of running vm_id cid present) in
          let (state, sent) = each_present ping threshold running kept vm_id cid o present in
          inr (
            cid,
            present,
            state ∙ ap (λ k. some (checked ping threshold vm_id cid k).0) old,
            sent ∙ ap (λ k. (checked ping threshold vm_id cid k).1) old,
          )
    ]
