-- ===== src/Health/Watch.antt =====
-- One VM under a sequence of health checks (pool/health.rs): the events that it causes.
use visor.Prelude.{
  ℕ, zero, suc, ◌+◌, ◌-◌, ◌^◌, ◌<◌, ◌≡◌, refl, Bool, true, false, not, ◌&&◌, ◌||◌, List, [], ◌∷◌,
  ◌++◌, map, Option, none, some, length, arith, leb, ltb, ◌==◌, inl, inr, Bool-cases, if◌then◌else◌,
}
use visor.Prelude.Texts.{Text}
use visor.Health.{
  HealthStatus, healthy, unhealthy, unknown, VmHealthState, VmEvent, recovered, went_unhealthy,
  check_vm, update, increment_u32,
}

module _ (threshold : ℕ) (vm_id : Text) where
  -- The checks of one VM, one sweep after the other.
  unfoldable pub watch : VmHealthState → List (Option Text) → VmHealthState × List VmEvent
  watch entry [] = (entry, [])
  watch entry (pong ∷ pongs) =
      let (entry', sent) = update threshold vm_id entry (check_vm pong) in
      let (entry'', more) = watch entry' pongs in (entry'', sent ++ more)

-- The events alternate, and only an unhealthy VM recovers.
abbrev pub Alternates : Bool → List VmEvent → Type 0
Alternates notified [] = Unit {0}
Alternates true (recovered vm_id ∷ es) = Alternates false es
Alternates false (went_unhealthy vm_id reason failures ∷ es) = Alternates true es
Alternates true (went_unhealthy vm_id reason failures ∷ es) = ⊥
Alternates false (recovered vm_id ∷ es) = ⊥

pong-Alternates :
    (vm_id : Text) (n : Bool) (es : List VmEvent)
    → Alternates false es
    → Alternates n ((if n then recovered vm_id ∷ [] else []) ++ es)
pong-Alternates vm_id true es a = a
pong-Alternates vm_id false es a = a

failure-Alternates :
    (vm_id reason : Text) (failures : ℕ) (over n : Bool) (es : List VmEvent)
    → Alternates ((over && not n) || n) es
    → Alternates n ((if over && not n then went_unhealthy vm_id reason failures ∷ [] else []) ++ es)
failure-Alternates vm_id reason failures true true es a = a
failure-Alternates vm_id reason failures true false es a = a
failure-Alternates vm_id reason failures false true es a = a
failure-Alternates vm_id reason failures false false es a = a

update-Alternates :
    (threshold : ℕ) (vm_id : Text) (entry : VmHealthState) (s : HealthStatus) (es : List VmEvent)
    → Alternates (update threshold vm_id entry s).0.notified_unhealthy es
    → Alternates entry.notified_unhealthy ((update threshold vm_id entry s).1 ++ es)
unfolding update
update-Alternates threshold vm_id entry healthy es a =
    pong-Alternates vm_id entry.notified_unhealthy es a
update-Alternates threshold vm_id entry unknown es a = a
update-Alternates threshold vm_id entry (unhealthy reason) es a =
    let failures = increment_u32 entry.consecutive_failures in
    failure-Alternates vm_id reason failures (leb threshold failures) entry.notified_unhealthy es a

-- Whatever the checks of a VM that no sweep in between leaves out find, the events alternate: `unhealthy` is
-- not repeated before a `recovered`, and `recovered` is sent only after an `unhealthy`.
pub watch-Alternates :
    (threshold : ℕ) (vm_id : Text) (entry : VmHealthState) (pongs : List (Option Text))
    → Alternates entry.notified_unhealthy (watch threshold vm_id entry pongs).1
unfolding watch
watch-Alternates threshold vm_id entry [] = tt
watch-Alternates threshold vm_id entry (pong ∷ pongs) =
    let next = (update threshold vm_id entry (check_vm pong)).0 in
    update-Alternates threshold vm_id entry (check_vm pong) _
      (watch-Alternates threshold vm_id next pongs)

-- Failures alone, one check each.
abbrev pub failures : List Text → List (Option Text)
failures rs = map (λ reason. some reason) rs

abbrev pub get_or : List Text → ℕ → Text → Text
get_or [] i d = d
get_or (x ∷ xs) zero d = x
get_or (x ∷ xs) (suc i) d = get_or xs i d

get_or_cons :
    (r : Text) (rs : List Text) (i : ℕ)
    → get_or (r ∷ rs) i [] ≡ (if i == 0 then r else get_or rs (i - 1) [])
get_or_cons r rs zero = refl
get_or_cons r rs (suc i) = let e : suc i - 1 ≡ i = omega arith in rw e (ground arith)

silent_once_notified :
    (threshold : ℕ) (vm_id : Text) (entry : VmHealthState) (rs : List Text)
    → entry.notified_unhealthy ≡ true
    → ((watch threshold vm_id entry (failures rs ++ none ∷ [])).1 ≡ recovered vm_id ∷ [])
unfolding watch update check_vm
silent_once_notified threshold vm_id entry [] n = ground arith
silent_once_notified threshold vm_id entry (r ∷ rs) n = ground (
  arith,
  silent_once_notified threshold vm_id (update threshold vm_id entry (unhealthy r)).0 rs
      (ground arith),
)

outage_from :
    (threshold : ℕ) (vm_id : Text) (entry : VmHealthState) (rs : List Text)
    → entry.notified_unhealthy ≡ false
    → entry.consecutive_failures < threshold
    → entry.consecutive_failures + length rs < 2 ^ 32
    → (watch threshold vm_id entry (failures rs ++ none ∷ [])).1 ≡ (
        if ltb (entry.consecutive_failures + length rs) threshold
        then []
        else went_unhealthy vm_id
            (get_or rs (threshold - entry.consecutive_failures - 1) [])
            threshold
          ∷ recovered vm_id
          ∷ [])
unfolding watch update check_vm
outage_from threshold vm_id entry [] n t w = ground arith
outage_from threshold vm_id entry (r ∷ rs) n t w =
    let c = entry.consecutive_failures in
    let next = (update threshold vm_id entry (unhealthy r)).0 in
    elim (Bool-cases (leb threshold (increment_u32 c))) [
      | inl crossed ↦ ground (
        arith,
        silent_once_notified threshold vm_id next rs (ground arith),
        get_or_cons r rs (threshold - c - 1),
      )
      | inr below ↦ ground (
        arith,
        outage_from threshold vm_id next rs (ground arith) (ground arith) (ground arith),
        get_or_cons r rs (threshold - c - 1),
      )
    ]

-- An outage that ends. From a healthy VM, failures in a row and then a pong cause no event if they are
-- fewer than the threshold; else one `unhealthy`, at the check that reaches the threshold, with that
-- check's reason and the threshold as the count, and one `recovered`.
pub watch_outage :
    (threshold : ℕ) (vm_id : Text) (entry : VmHealthState) (rs : List Text)
    → entry.notified_unhealthy ≡ false
    → entry.consecutive_failures ≡ 0
    → 0 < threshold
    → length rs < 2 ^ 32
    → (watch threshold vm_id entry (failures rs ++ none ∷ [])).1 ≡ (
        if ltb (length rs) threshold
        then []
        else went_unhealthy vm_id (get_or rs (threshold - 1) []) threshold ∷ recovered vm_id ∷ [])
watch_outage threshold vm_id entry rs n z t w =
    let e : entry.consecutive_failures + length rs ≡ length rs = omega arith in
    let e' : threshold - entry.consecutive_failures - 1 ≡ threshold - 1 = omega arith in
    rw (e, e') at (outage_from threshold vm_id entry rs n (omega arith) (omega arith))
