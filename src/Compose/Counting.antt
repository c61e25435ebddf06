-- ===== src/Compose/Counting.antt =====
-- The two loops that count the dependencies in compose/orchestrator.rs.
use visor.Prelude.{
  ◌≤◌, ◌≡◌, refl, sym, false, List, [], ◌∷◌, ◌++◌, Result, ok, err, ◌>>=◌, arith, if_cases,
  append_assoc, append-nil, subst,
}
use visor.Prelude.Texts.{Text, text_discrete}
use mathlib.Core.Logic.{ite}
use visor.Compose.{
  Services, ComposeService, SortError, keys, extract_dependency_names, contains_key, Degrees,
  Dependents, zero_degrees, add_dependency, count_dependencies, count_services,
}
use visor.Compose.Counts.{count, count-append}
use visor.Compose.Degrees.{
  dependencies, Counted, with_dependency, add-Counted, zero-Counted, contains_key-count,
}

-- What counting ends in: the tables of `deps`, or a dependency out of `asked` that is not defined.
unfoldable pub CountsTo :
    Services
    → (Text → List Text)
    → (Text → List Text)
    → Result (Degrees × Dependents) SortError
    → Type 0
CountsTo services asked deps (ok state) = Counted services deps state
CountsTo services asked deps (err (SortError.undefined_dependency name dep)) =
    (1 ≤ count dep (asked name)) × (contains_key dep services ≡ false)
CountsTo services asked deps (err SortError.dependency_cycle) = ⊥
CountsTo services asked deps (err SortError.out_of_fuel) = ⊥

same-CountsTo :
    (services : Services) (asked deps others : Text → List Text)
    (r : Result (Degrees × Dependents) SortError)
    → ((x : Text) → deps x ≡ others x)
    → CountsTo services asked deps r
    → CountsTo services asked others r
same-CountsTo services asked deps others r h c =
    subst (λ f. CountsTo services asked f r) (λ i x. h x i) c

-- More dependencies of one service.
abbrev with_dependencies : (Text → List Text) → Text → List Text → Text → List Text
with_dependencies deps name more x = ite (text_discrete name x) (deps x ++ more) (deps x)

ite-nothing : {T : Type 0} (d : Dec T) (xs : List Text) → xs ≡ ite d (xs ++ []) xs
ite-nothing (yes same) xs = sym (append-nil xs)
ite-nothing (no other) xs = refl

ite-twice :
    {T : Type 0} (d : Dec T) (xs ys zs : List Text)
    → ite d (ite d (xs ++ ys) xs ++ zs) (ite d (xs ++ ys) xs) ≡ ite d (xs ++ (ys ++ zs)) xs
ite-twice (yes same) xs ys zs = append_assoc xs ys zs
ite-twice (no other) xs ys zs = refl

ite-before :
    {T : Type 0} (d : Dec T) (xs ys zs : List Text)
    → ite d (xs ++ ys) xs ++ zs ≡ xs ++ ite d (ys ++ zs) zs
ite-before (yes same) xs ys zs = append_assoc xs ys zs
ite-before (no other) xs ys zs = refl

count_dependencies-CountsTo :
    (services : Services) (asked : Text → List Text) (name : Text) (names : List Text)
    (deps : Text → List Text) (state : Degrees × Dependents)
    → Counted services deps state
    → 1 ≤ count name (keys services)
    → ((d : Text) → 1 ≤ count d names → 1 ≤ count d (asked name))
    → CountsTo services asked
        (with_dependencies deps name names)
        (count_dependencies services name names state)
unfolding count_dependencies CountsTo count
count_dependencies-CountsTo services asked name [] deps state c there h =
    same-CountsTo services asked deps (with_dependencies deps name []) (ok state)
      (λ x. ite-nothing (text_discrete name x) (deps x)) c
count_dependencies-CountsTo services asked name (dep ∷ names) deps state c there h =
    if_cases (CountsTo services asked (with_dependencies deps name (dep ∷ names)))
      (contains_key dep services)
      (λ known.
        (same-CountsTo services asked (with_dependencies (with_dependency deps name dep) name names)
          (with_dependencies deps name (dep ∷ names))
          (count_dependencies services name names (add_dependency name dep state))
          (λ x. ite-twice (text_discrete name x) (deps x) (dep ∷ []) names)
          (count_dependencies-CountsTo services asked name names (with_dependency deps name dep)
            (add_dependency name dep state)
            (add-Counted services deps state name dep c there
              (contains_key-count dep services known))
            there (λ d m. h d (ground (arith, m))))))
      (λ unknown. (h dep (ground arith), unknown))

-- What follows a count that went well or not.
then-CountsTo :
    (services : Services) (asked deps others : Text → List Text)
    (r : Result (Degrees × Dependents) SortError)
    (next : Degrees × Dependents → Result (Degrees × Dependents) SortError)
    → CountsTo services asked deps r
    → ((state : Degrees × Dependents)
        → Counted services deps state
        → CountsTo services asked others (next state))
    → CountsTo services asked others (r >>= next)
unfolding CountsTo
then-CountsTo services asked deps others (ok state) next c h = h state c
then-CountsTo services asked deps others (err (SortError.undefined_dependency a b)) next c h = c
then-CountsTo services asked deps others (err SortError.dependency_cycle) next c h = c
then-CountsTo services asked deps others (err SortError.out_of_fuel) next c h = c

first-asked :
    (name d : Text) (svc : ComposeService) (left : Services)
    → 1 ≤ count d (extract_dependency_names svc.depends_on)
    → 1 ≤ count d (dependencies ((name, svc) ∷ left) name)
unfolding dependencies
first-asked name d svc left h = elim (text_discrete name name) [
  | yes same ↦
      ground (
        arith,
        h,
        count-append d (extract_dependency_names svc.depends_on) (dependencies left name),
      )
  | no other ↦ absurd (other refl)
]

later-asked :
    (name x d : Text) (svc : ComposeService) (left : Services)
    → 1 ≤ count d (dependencies left x)
    → 1 ≤ count d (dependencies ((name, svc) ∷ left) x)
unfolding dependencies
later-asked name x d svc left h = elim (text_discrete name x) [
  | yes same ↦
      ground
        (arith, h, count-append d (extract_dependency_names svc.depends_on) (dependencies left x))
  | no other ↦ ground (arith, other, h)
]

pub count_services-CountsTo :
    (services : Services) (asked : Text → List Text) (left : Services) (deps : Text → List Text)
    (state : Degrees × Dependents)
    → Counted services deps state
    → ((x : Text) → 1 ≤ count x (keys left) → 1 ≤ count x (keys services))
    → ((x d : Text) → 1 ≤ count d (dependencies left x) → 1 ≤ count d (asked x))
    → CountsTo services asked
        (λ x. deps x ++ dependencies left x)
        (count_services services left state)
unfolding count_services keys count dependencies CountsTo
count_services-CountsTo services asked [] deps state c there h =
    same-CountsTo services asked deps (λ x. deps x ++ []) (ok state)
      (λ x. sym (append-nil (deps x))) c
count_services-CountsTo services asked ((name, svc) ∷ left) deps state c there h =
    then-CountsTo services asked
      (with_dependencies deps name (extract_dependency_names svc.depends_on))
      (λ x. deps x ++ dependencies ((name, svc) ∷ left) x)
      (count_dependencies services name (extract_dependency_names svc.depends_on) state)
      (count_services services left)
      (count_dependencies-CountsTo services asked name (extract_dependency_names svc.depends_on)
        deps state c (there name (ground arith)) (λ d m. h name d (first-asked name d svc left m)))
      (λ counted k.
        (same-CountsTo services asked
          (λ x.
            with_dependencies deps name (extract_dependency_names svc.depends_on) x
            ++ dependencies left x)
          (λ x. deps x ++ dependencies ((name, svc) ∷ left) x)
          (count_services services left counted)
          (λ x.
            (ite-before (text_discrete name x) (deps x) (extract_dependency_names svc.depends_on)
              (dependencies left x)))
          (count_services-CountsTo services asked left
            (with_dependencies deps name (extract_dependency_names svc.depends_on)) counted k
            (λ x m. there x (ground (arith, m)))
            (λ x d m. h x d (later-asked name x d svc left m)))))

pub all-CountsTo :
    (services : Services)
    → CountsTo services
        (dependencies services)
        (dependencies services)
        (count_services services services (zero_degrees services, []))
all-CountsTo services =
    count_services-CountsTo services (dependencies services) services (λ x. [])
      (zero_degrees services, []) (zero-Counted services) (λ x m. m) (λ x d m. m)
