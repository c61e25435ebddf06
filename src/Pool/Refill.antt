-- ===== src/Pool/Refill.antt =====
-- How many warm VMs `refill_once` of pool/manager.rs leaves in the pools.
use visor.Prelude.{
  ℕ, zero, suc, ◌+◌, ◌-◌, ◌≤◌, ◌≡◌, refl, ◌∙◌, Bool, true, false, List, [], ◌∷◌, ◌++◌, Option, none,
  some, Result, ok, err, length, length-append, arith, if◌then◌else◌,
}
use visor.Prelude.Maps.{Map, get-insert}
use visor.Prelude.Texts.{Text, text_discrete}
use mathlib.Core.Logic.{ite}
use visor.Pool.{
  VmConfig, PoolConfig, Backend, Pools, Warming, target_size, vm_config_for_image, pool_of,
  images_of, is_seen, desired, keep, awaited, warm_from, warm, warm_all, refill_once, warm_result,
  note_error, refill_result,
}

abbrev pub available : {V : Type 0} → Text → Map Text (List V) → ℕ
available image pools = length (pool_of image pools)

abbrev is_ok : {A E : Type 0} → Result A E → Bool
is_ok (ok a) = true
is_ok (err e) = false

-- How many VMs the targets ask for an image.
unfoldable asked : Text → List (Text × ℕ) → ℕ
asked image [] = 0
asked image ((other, missing) ∷ targets) =
    ite (text_discrete other image) (missing + asked image targets) (asked image targets)

-- Each image is asked for once, and only if it is known.
asked-desired :
    {V : Type 0} (config : PoolConfig) (pools : Map Text (List V)) (image : Text)
    (seen images : List Text)
    → asked image (desired config pools seen images) ≡ (
        if is_seen image seen
        then 0
        else (if is_seen image images then target_size config image - available image pools else 0))
unfolding asked desired is_seen
asked-desired config pools image seen [] = ground arith
asked-desired config pools image seen (other ∷ images) = elim (text_discrete other image) [
  | yes same ↦ rw same (
      ground (
        arith,
        asked-desired config pools image seen images,
        asked-desired config pools image (image ∷ seen) images,
      ))
  | no differ ↦ ground (
    arith,
    differ,
    asked-desired config pools image seen images,
    asked-desired config pools image (other ∷ seen) images,
  )
]

-- While a creation is awaited, other calls leave the sizes of the pools as they are.
abbrev pub IsQuiet : {S V E : Type 0} → Backend S V E → Type 0
IsQuiet {S} {V} backend =
    (image : Text) (s : S) (pools : Map Text (List V))
    → available image (backend.meanwhile s pools) ≡ available image pools

module _ {S V E : Type 0} (backend : Backend S V E) (quiet : IsQuiet backend) where
  awaited-available :
      (j : Text) (s : S) (w : Warming S V E)
      → available j (awaited backend s w).now.pools ≡ available j w.now.pools
  unfolding awaited
  awaited-available j s w = quiet j s w.now.pools

  keep-available :
      (image j : Text) (made : Result V E) (s : S) (w : Warming S V E)
      → available j (keep backend image made s w).now.pools
        ≡ available j w.now.pools + ite (text_discrete image j) (if is_ok made then 1 else 0) 0
  unfolding keep pool_of
  keep-available image j (ok info) s w = elim (text_discrete image j) [
    | yes same ↦ rw same (
        ground (
          arith,
          get-insert text_discrete j j (pool_of j w.now.pools ++ info ∷ []) w.now.pools,
          length-append (pool_of j w.now.pools) (info ∷ []),
        ))
    | no other ↦ ground (
      arith,
      other,
      get-insert text_discrete image j (pool_of image w.now.pools ++ info ∷ []) w.now.pools,
    )
  ]
  keep-available image j (err e) s w = ground arith

  warm_from-within :
      (config : PoolConfig) (image j : Text) (n : ℕ) (w : Warming S V E)
      → (available j w.now.pools ≤ available j (warm_from backend config image n w).now.pools)
        × (available j (warm_from backend config image n w).now.pools
            ≤ available j w.now.pools + ite (text_discrete image j) n 0)
  unfolding warm_from
  warm_from-within config image j zero w = (omega arith, omega arith)
  warm_from-within config image j (suc n) w =
      let made = backend.create (vm_config_for_image config image) w.now.outside in
      let rest =
        warm_from-within config image j n
          (keep backend image made.0 made.1 (awaited backend made.1 w)) in
      let one = keep-available image j made.0 made.1 (awaited backend made.1 w) in
      let same = awaited-available j made.1 w in
      (ground (arith, rest.0, one, same), ground (arith, rest.1, one, same))

  warm_all-within :
      (config : PoolConfig) (j : Text) (targets : List (Text × ℕ)) (p : Pools S V)
      → (available j p.pools ≤ available j (warm_all backend config targets p).1.pools)
        × (available j (warm_all backend config targets p).1.pools
            ≤ available j p.pools + asked j targets)
  unfolding warm_all asked warm
  warm_all-within config j [] p = (omega arith, omega arith)
  warm_all-within config j ((image, missing) ∷ targets) p =
      let first =
        warm_from-within config image j missing
          (record { created = 0; last_err = none; now = p }) in
      let rest = warm_all-within config j targets (warm backend config image missing p).1 in
      (ground (arith, first.0, rest.0), ground (arith, first.1, rest.1))

  -- If other calls leave the sizes of the pools alone meanwhile: whatever the backend answers, refilling takes
  -- no VM out of a pool, and fills a pool at most up to its target size.
  pub refill_once-within :
      (config : PoolConfig) (image : Text) (p : Pools S V)
      → (available image p.pools ≤ available image (refill_once backend config p).1.pools)
        × (available image (refill_once backend config p).1.pools
            ≤ available image p.pools + (target_size config image - available image p.pools))
  unfolding refill_once is_seen
  refill_once-within config image p =
      let images = images_of config.image_configs ++ images_of p.pools in
      let all = warm_all-within config image (desired config p.pools [] images) p in
      (all.0, ground (arith, all.1, asked-desired config p.pools image [] images))

  module _ (creates : (c : VmConfig) (s : S) → is_ok (backend.create c s).0 ≡ true) where
    keep-last_err :
        (image : Text) (made : Result V E) (s : S) (w : Warming S V E)
        → is_ok made ≡ true
        → (keep backend image made s w).last_err ≡ w.last_err
    unfolding keep
    keep-last_err image (ok info) s w h = refl
    keep-last_err image (err e) s w h = absurd (ground (arith, h))

    last_err-awaited : (s : S) (w : Warming S V E) → (awaited backend s w).last_err ≡ w.last_err
    unfolding awaited
    last_err-awaited s w = refl

    warm_from-fills :
        (config : PoolConfig) (image j : Text) (n : ℕ) (w : Warming S V E)
        → (available j (warm_from backend config image n w).now.pools
            ≡ available j w.now.pools + ite (text_discrete image j) n 0)
          × ((warm_from backend config image n w).last_err ≡ w.last_err)
    unfolding warm_from
    warm_from-fills config image j zero w = (ground arith, refl)
    warm_from-fills config image j (suc n) w =
        let c = vm_config_for_image config image in
        let made = backend.create c w.now.outside in
        let rest =
          warm_from-fills config image j n
            (keep backend image made.0 made.1 (awaited backend made.1 w)) in
        let good = creates c w.now.outside in
        let one = keep-available image j made.0 made.1 (awaited backend made.1 w) in
        let same = awaited-available j made.1 w in
        (
          ground (arith, rest.0, one, same, good),
          rest.1
              ∙ keep-last_err image made.0 made.1 (awaited backend made.1 w) good
              ∙ last_err-awaited made.1 w,
        )

    warm_result-none :
        (n : ℕ) (last_err : Option E) → last_err ≡ none → warm_result backend n last_err ≡ ok tt
    unfolding warm_result
    warm_result-none zero none h = refl
    warm_result-none (suc n) none h = refl
    warm_result-none zero (some e) h = absurd (ground (arith, h))
    warm_result-none (suc n) (some e) h = refl

    warm_all-fills :
        (config : PoolConfig) (j : Text) (targets : List (Text × ℕ)) (p : Pools S V)
        → (available j (warm_all backend config targets p).1.pools
            ≡ available j p.pools + asked j targets)
          × ((warm_all backend config targets p).0 ≡ [])
    unfolding warm_all asked warm note_error
    warm_all-fills config j [] p = (omega arith, refl)
    warm_all-fills config j ((image, missing) ∷ targets) p =
        let start : Warming S V E = record { created = 0; last_err = none; now = p } in
        let w = warm_from backend config image missing start in
        let first = warm_from-fills config image j missing start in
        let rest = warm_all-fills config j targets (warm backend config image missing p).1 in
        (ground (arith, first.0, rest.0), rw (warm_result-none w.created w.last_err first.1) rest.1)

    -- If every creation succeeds, and other calls leave the sizes of the pools alone meanwhile, refilling ends
    -- without an error, and the pool of every image that is configured or had a pool has grown by what it
    -- lacked to its target size; no other pool has changed its size.
    pub refill_once-fills :
        (config : PoolConfig) (image : Text) (p : Pools S V)
        → (available image (refill_once backend config p).1.pools
            ≡ available image p.pools
              + (if is_seen image (images_of config.image_configs ++ images_of p.pools)
                  then target_size config image - available image p.pools
                  else 0))
          × ((refill_once backend config p).0 ≡ ok tt)
    unfolding refill_once refill_result is_seen
    refill_once-fills config image p =
        let images = images_of config.image_configs ++ images_of p.pools in
        let all = warm_all-fills config image (desired config p.pools [] images) p in
        (ground (arith, all.0, asked-desired config p.pools image [] images), rw all.1 refl)
