-- ===== src/Compose/Loop.antt =====
-- The loop over the queue of services that are ready in compose/orchestrator.rs.
use visor.Prelude.{
  ℕ, zero, suc, ◌+◌, ◌-◌, ◌≤◌, ◌≡◌, refl, List, [], ◌∷◌, ◌++◌, some, length, length-append, arith,
  if◌then◌else◌, ◌==◌, Option-cases, inl, inr, append-nil, append_assoc,
}
use visor.Prelude.Maps
use visor.Prelude.Maps.{get-insert}
use visor.Prelude.Texts.{Text, text_discrete}
use mathlib.Core.Logic.{ite}
use visor.Compose.{Services, keys, Degrees, Dependents, sort, seeds, lower, lower_all, process}
use visor.Compose.Counts.{
  count, todo, count-append, todo-nothing, todo-done, count-sort, length-le, length-keys,
  count-seeds, seeds-zero, zero-seeds,
}
use visor.Compose.Degrees.{degree, waiting, Counted}

-- Every name comes after all its dependencies, when those of `done` have come before.
unfoldable pub IsOrdered : (Text → List Text) → List Text → List Text → Type 0
IsOrdered deps done [] = Unit
IsOrdered deps done (x ∷ xs) = (todo done (deps x) ≡ 0) × IsOrdered deps (done ++ x ∷ []) xs

-- Whether a name of the list becomes ready: it is in the list, and waits for nothing afterwards.
unfoldable ready_count : ℕ → ℕ → ℕ
ready_count deg waits = if deg == 0 then (if waits == 0 then 0 else 1) else 0

record Lowered (names : List Text) (before : Degrees) (after : Degrees × List Text) : Type 0 where
  fewer : (x : Text) → degree after.0 x + count x names ≡ degree before x
  ready : (x : Text) → count x after.1 ≡ ready_count (degree after.0 x) (count x names)

lower-some :
    (dep x : Text) (degrees : Degrees)
    → 1 ≤ degree degrees dep
    → degree (lower dep degrees (Maps.get text_discrete dep degrees)).0 x
      ≡ ite (text_discrete dep x) (degree degrees dep - 1) (degree degrees x)
unfolding lower
lower-some dep x degrees h = elim (Option-cases (Maps.get text_discrete dep degrees)) [
  | inl e ↦ absurd (ground (arith, e, h))
  | inr (n, e) ↦ ground (arith, e, get-insert text_discrete dep x (n - 1) degrees)
]

lower-ready :
    (dep x : Text) (degrees : Degrees)
    → 1 ≤ degree degrees dep
    → count x (lower dep degrees (Maps.get text_discrete dep degrees)).1
      ≡ ite (text_discrete dep x) (if degree degrees dep - 1 == 0 then 1 else 0) 0
unfolding lower count
lower-ready dep x degrees h = elim (Option-cases (Maps.get text_discrete dep degrees)) [
  | inl e ↦ absurd (ground (arith, e, h))
  | inr (n, e) ↦ ground (arith, e)
]

lower_all-Lowered :
    (names : List Text) (degrees : Degrees)
    → ((x : Text) → count x names ≤ degree degrees x)
    → Lowered names degrees (lower_all names degrees)
unfolding lower_all count ready_count
lower_all-Lowered [] degrees h = record { fewer = λ x. omega arith; ready = λ x. ground arith }
lower_all-Lowered (dep ∷ names) degrees h =
    let waits : 1 ≤ degree degrees dep = ground (arith, h dep) in
    let first = lower dep degrees (Maps.get text_discrete dep degrees) in
    let rest = lower_all-Lowered names first.0 (λ x. elim (text_discrete dep x) [
      | yes same ↦ ground (arith, same, h x, lower-some dep x degrees waits)
      | no other ↦ ground (arith, other, h x, lower-some dep x degrees waits)
    ]) in
    record {
      fewer = λ x. elim (text_discrete dep x) [
        | yes same ↦ ground (arith, same, rest.fewer x, h x, lower-some dep x degrees waits)
        | no other ↦ ground (arith, other, rest.fewer x, lower-some dep x degrees waits)
      ];
      ready = λ x. elim (text_discrete dep x) [
        | yes same ↦ ground (
          arith,
          same,
          rest.fewer x,
          rest.ready x,
          h x,
          lower-some dep x degrees waits,
          lower-ready dep x degrees waits,
          count-append x first.1 (lower_all names first.0).1,
        )
        | no other ↦ ground (
          arith,
          other,
          rest.fewer x,
          rest.ready x,
          lower-ready dep x degrees waits,
          count-append x first.1 (lower_all names first.0).1,
        )
      ];
    }

-- The state of the loop: what is in the queue is ready, what is done came in order, and nothing is lost.
pub record Running (services : Services) (deps : Text → List Text) (degrees : Degrees)
    (queue result : List Text) : Type 0 where
  pub left : (x : Text) → degree degrees x ≡ todo result (deps x)
  pub ready : (x : Text) → 1 ≤ count x queue + count x result → degree degrees x ≡ 0
  pub once : (x : Text) → count x queue + count x result ≤ count x (keys services)
  pub single : (x : Text) → count x queue + count x result ≤ 1
  pub complete :
      (x : Text)
      → 1 ≤ count x (keys services)
      → degree degrees x ≡ 0
      → 1 ≤ count x queue + count x result
  pub in_order : IsOrdered deps [] result

IsOrdered-snoc :
    (deps : Text → List Text) (done xs : List Text) (name : Text)
    → IsOrdered deps done xs
    → todo (done ++ xs) (deps name) ≡ 0
    → IsOrdered deps done (xs ++ name ∷ [])
unfolding IsOrdered
IsOrdered-snoc deps done [] name h z = (ground (arith, z, append-nil done), tt)
IsOrdered-snoc deps done (x ∷ xs) name h z = (
  h.0,
  IsOrdered-snoc deps (done ++ x ∷ []) xs name h.1
      (ground (arith, z, append_assoc done (x ∷ []) xs)),
)

round-Running :
    (services : Services) (deps : Text → List Text) (dependents : Dependents) (degrees : Degrees)
    (name : Text) (queue result : List Text)
    → ((x d : Text) → count x (waiting dependents d) ≡ count d (deps x))
    → ((x d : Text) → 1 ≤ count d (deps x) → 1 ≤ count x (keys services))
    → Running services deps degrees (name ∷ queue) result
    → Running services deps
        (lower_all (waiting dependents name) degrees).0
        (queue ++ sort (lower_all (waiting dependents name) degrees).1)
        (result ++ name ∷ [])
unfolding count ready_count
round-Running services deps dependents degrees name queue result waits known r =
    let lowered = lower_all (waiting dependents name) degrees in
    let fresh : count name result ≡ 0 = ground (arith, r.single name) in
    let step = λ (x : Text). todo-done name result (deps x) fresh in
    let l =
      lower_all-Lowered (waiting dependents name) degrees
        (λ x. ground (arith, r.left x, step x, waits x name)) in
    let total : (x : Text)
        → count x (queue ++ sort lowered.1) + count x (result ++ name ∷ [])
          ≡ count x (name ∷ queue)
            + count x result
            + ready_count (degree lowered.0 x) (count x (waiting dependents name)) =
      λ x. ground (
        arith,
        count-append x queue (sort lowered.1),
        count-sort x lowered.1,
        count-append x result (name ∷ []),
        l.ready x,
      ) in
    record {
      left = λ x. ground (arith, l.fewer x, r.left x, step x, waits x name);
      ready = λ x h. ground (arith, h, total x, l.fewer x, r.ready x);
      once =
          λ x. ground (arith, total x, l.fewer x, r.ready x, r.once x, waits x name, known x name);
      single = λ x. ground (arith, total x, l.fewer x, r.ready x, r.single x);
      complete = λ x h z. ground (arith, total x, l.fewer x, r.complete x h, z);
      in_order =
          IsOrdered-snoc deps [] result name r.in_order (ground (arith, r.left name, r.ready name));
    }

Running-length :
    (services : Services) (deps : Text → List Text) (degrees : Degrees) (queue result : List Text)
    → Running services deps degrees queue result
    → length queue + length result ≤ length services
Running-length services deps degrees queue result r =
    let le =
      length-le (queue ++ result) (keys services)
        (λ x. ground (arith, count-append x queue result, r.once x)) in
    omega (arith, le, length-append queue result, length-keys services)

-- What the loop ends in.
abbrev pub Finished : Services → (Text → List Text) → List Text → Type 0
Finished services deps result = (degrees : Degrees) × Running services deps degrees [] result

pub process-Finished :
    (fuel : ℕ) (services : Services) (deps : Text → List Text) (dependents : Dependents)
    (degrees : Degrees) (queue result : List Text)
    → ((x d : Text) → count x (waiting dependents d) ≡ count d (deps x))
    → ((x d : Text) → 1 ≤ count d (deps x) → 1 ≤ count x (keys services))
    → Running services deps degrees queue result
    → fuel + length result ≡ length services
    → (done : List Text) × (process fuel dependents queue degrees result ≡ some done)
      × Finished services deps done
unfolding process
process-Finished fuel services deps dependents degrees [] result waits known r e =
    (result, refl, (degrees, r))
process-Finished zero services deps dependents degrees (name ∷ queue) result waits known r e =
    absurd (omega (arith, e, Running-length services deps degrees (name ∷ queue) result r))
process-Finished (suc fuel) services deps dependents degrees (name ∷ queue) result waits known r e =
    process-Finished fuel services deps dependents (lower_all (waiting dependents name) degrees).0
      (queue ++ sort (lower_all (waiting dependents name) degrees).1) (result ++ name ∷ []) waits
      known (round-Running services deps dependents degrees name queue result waits known r)
      (omega (arith, e, length-append result (name ∷ [])))

pub first-Running :
    (services : Services) (deps : Text → List Text) (counted : Degrees × Dependents)
    → Counted services deps counted
    → Running services deps counted.0 (sort (seeds counted.0)) []
unfolding count IsOrdered
first-Running services deps (degrees, dependents) c = record {
  left = λ x. ground (arith, c.degree_is x, todo-nothing (deps x));
  ready =
      λ x h. seeds-zero x degrees (c.keys_are x) (ground (arith, h, count-sort x (seeds degrees)));
  once = λ x.
      ground
        (arith, count-sort x (seeds degrees), count-seeds x degrees, c.keys_are x, c.keys_in x);
  single = λ x. ground (arith, count-sort x (seeds degrees), count-seeds x degrees, c.keys_are x);
  complete = λ x h z.
      ground (arith, count-sort x (seeds degrees), zero-seeds x degrees (c.keys_all x h) z);
  in_order = tt;
}
