-- ===== src/Pool.antt =====
-- crates/visor-runtime/src/pool/manager.rs: the pool of warm VMs. The execution backend and the snapshot
-- cache are arguments that go through a state of their own. The lock is held for single steps only: what
-- other calls do to the pools while the backend is awaited is an argument as well. Of a `VmConfig` the fields
-- are kept that the pool sets: the others are those of `VmConfig::new`. Fewer than 2 ^ 32 VMs are created at
-- a time.
pub mod Refill
mod Tests
use visor.Prelude.{
  ℕ, zero, suc, ◌+◌, ◌-◌, Bool, true, false, List, [], ◌∷◌, ◌++◌, Option, none, some, Result, ok,
  err, length, ltb, if◌then◌else◌,
}
use visor.Prelude.Maps
use visor.Prelude.Maps.{Map}
use visor.Prelude.Texts.{Text, text_discrete}
use mathlib.Core.Logic.{ite}

pub record VmConfig : Type 0 where
  pub image : Text
  pub memory_mib : ℕ
  pub detach : Bool

pub record ImagePoolConfig : Type 0 where
  pub size : ℕ
  pub memory_mib : ℕ

pub record PoolConfig : Type 0 where
  pub default_size : ℕ
  pub image_configs : Map Text ImagePoolConfig

-- `ExecutionBackend`, and the directory of the snapshot that the cache has for a configuration.
pub record Backend (S V E : Type 0) : Type 0 where
  pub create : VmConfig → S → Result V E × S
  pub create_from_snapshot : VmConfig → Text → S → Result V E × S
  pub stop : V → S → Bool × S
  pub cached_snapshot : VmConfig → S → Result (Option Text) E
  -- What other calls have done to the pools when a creation or a stop is over, which left the state.
  pub meanwhile : S → Map Text (List V) → Map Text (List V)

-- The manager's pools with the state of the backend.
pub record Pools (S V : Type 0) : Type 0 where
  pub pools : Map Text (List V)
  pub outside : S

pub record ImagePoolStatus : Type 0 where
  pub available : ℕ
  pub target : ℕ

pub record PoolStatus : Type 0 where
  pub images : Map Text ImagePoolStatus
  pub total : ℕ

-- The loop of `warm` so far.
pub record Warming (S V E : Type 0) : Type 0 where
  pub created : ℕ
  pub last_err : Option E
  pub now : Pools S V

unfoldable pub target_size : PoolConfig → Text → ℕ
target_size config image = elim (Maps.get text_discrete image config.image_configs) [
  | none ↦ config.default_size
  | some cfg ↦ cfg.size
]

unfoldable pub vm_config_for_image : PoolConfig → Text → VmConfig
vm_config_for_image config image = record {
  image = image;
  memory_mib = elim (Maps.get text_discrete image config.image_configs) [
    | none ↦ 512
    | some cfg ↦ cfg.memory_mib
  ];
  detach = true;
}

-- `Vec::pop`: the last element, and what is before it.
unfoldable pub pop : {V : Type 0} → List V → Option (V × List V)
pop [] = none
pop (vm ∷ vms) = elim (pop vms) [
  | none ↦ some (vm, [])
  | some (last, front) ↦ some (last, vm ∷ front)
]

abbrev pub vms_of : {V : Type 0} → Option (List V) → List V
vms_of none = []
vms_of (some vms) = vms

unfoldable pub pool_of : {V : Type 0} → Text → Map Text (List V) → List V
pool_of image pools = vms_of (Maps.get text_discrete image pools)

unfoldable pub images_of : {A : Type 0} → Map Text A → List Text
images_of [] = []
images_of ((image, a) ∷ rest) = image ∷ images_of rest

unfoldable pub is_seen : Text → List Text → Bool
is_seen image [] = false
is_seen image (other ∷ images) = ite (text_discrete other image) true (is_seen image images)

-- `refill_targets`, over the images that are left.
unfoldable pub desired :
    {V : Type 0} → PoolConfig → Map Text (List V) → List Text → List Text → List (Text × ℕ)
desired config pools seen [] = []
desired config pools seen (image ∷ images) =
    let skip = desired config pools seen images in
    let later = desired config pools (image ∷ seen) images in
    let available = length (pool_of image pools) in
    let target = target_size config image in
    if is_seen image seen
    then skip
    else (if ltb available target then (image, target - available) ∷ later else later)

-- The images with VMs, and those that are configured.
unfoldable pub count_images : {V : Type 0} → PoolConfig → Map Text (List V) → PoolStatus
count_images config [] = record { images = []; total = 0 }
count_images config ((image, vms) ∷ pools) =
    let rest = count_images config pools in
    record {
      images =
          Maps.insert text_discrete image
            (record { available = length vms; target = target_size config image }) rest.images;
      total = length vms + rest.total;
    }

unfoldable pub add_configured :
    Map Text ImagePoolConfig → Map Text ImagePoolStatus → Map Text ImagePoolStatus
add_configured [] images = images
add_configured ((image, cfg) ∷ configs) images =
    let more =
      Maps.insert text_discrete image (record { available = 0; target = cfg.size }) images in
    add_configured configs
      (elim (Maps.get text_discrete image images) [ none ↦ more | some status ↦ images ])

unfoldable pub status : {S V : Type 0} → PoolConfig → Pools S V → PoolStatus
status config p =
    let counted = count_images config p.pools in
    record { images = add_configured config.image_configs counted.images; total = counted.total }

unfoldable pub all_vms : {V : Type 0} → Map Text (List V) → List V
all_vms [] = []
all_vms ((image, vms) ∷ pools) = vms ++ all_vms pools

module _ {S V E : Type 0} (backend : Backend S V E) where
  unfoldable pub acquire_new : VmConfig → S → Result V E × S
  acquire_new config s = elim (backend.cached_snapshot config s) [
    | err e ↦ (err e, s)
    | ok cached ↦ elim cached [
      | none ↦ backend.create config s
      | some snapshot_dir ↦ backend.create_from_snapshot config snapshot_dir s
    ]
  ]

  unfoldable pub acquire : PoolConfig → Text → Pools S V → Result V E × Pools S V
  acquire config image p = elim (pop (pool_of image p.pools)) [
    | some (vm, rest) ↦ (
      ok vm,
      record { pools = Maps.insert text_discrete image rest p.pools; outside = p.outside },
    )
    | none ↦
        let made = acquire_new (vm_config_for_image config image) p.outside in
        (made.0, record { pools = backend.meanwhile made.1 p.pools; outside = made.1 })
  ]

  -- The `match` on one creation.
  unfoldable pub keep : Text → Result V E → S → Warming S V E → Warming S V E
  keep image (ok info) s w = record {
    created = w.created + 1;
    last_err = w.last_err;
    now = record {
      pools = Maps.insert text_discrete image (pool_of image w.now.pools ++ info ∷ []) w.now.pools;
      outside = s;
    };
  }
  keep image (err e) s w = record {
    created = w.created;
    last_err = some e;
    now = record { pools = w.now.pools; outside = s };
  }

  -- The pools when the lock is taken again.
  unfoldable pub awaited : S → Warming S V E → Warming S V E
  awaited s w = record w { now = record { pools = backend.meanwhile s w.now.pools; outside = s } }

  unfoldable pub warm_from : PoolConfig → Text → ℕ → Warming S V E → Warming S V E
  warm_from config image zero w = w
  warm_from config image (suc n) w =
      let made = backend.create (vm_config_for_image config image) w.now.outside in
      warm_from config image n (keep image made.0 made.1 (awaited made.1 w))

  unfoldable pub warm_result : ℕ → Option E → Result {0, 0} Unit E
  warm_result zero (some e) = err e
  warm_result zero none = ok tt
  warm_result (suc created) last_err = ok tt

  unfoldable pub warm : PoolConfig → Text → ℕ → Pools S V → Result {0, 0} Unit E × Pools S V
  warm config image count p =
      let w = warm_from config image count (record { created = 0; last_err = none; now = p }) in
      (warm_result w.created w.last_err, w.now)

  unfoldable pub note_error : Text → Result {0, 0} Unit E → List (Text × E) → List (Text × E)
  note_error image (ok done) errors = errors
  note_error image (err e) errors = (image, e) ∷ errors

  unfoldable pub warm_all : PoolConfig → List (Text × ℕ) → Pools S V → List (Text × E) × Pools S V
  warm_all config [] p = ([], p)
  warm_all config ((image, missing) ∷ targets) p =
      let warmed = warm config image missing p in
      let rest = warm_all config targets warmed.1 in (note_error image warmed.0 rest.0, rest.1)

  unfoldable pub refill_result : List (Text × E) → Result {0, 0} Unit (List (Text × E))
  refill_result [] = ok tt
  refill_result (error ∷ errors) = err (error ∷ errors)

  unfoldable pub refill_once :
      PoolConfig → Pools S V → Result {0, 0} Unit (List (Text × E)) × Pools S V
  refill_once config p =
      let images = images_of config.image_configs ++ images_of p.pools in
      let refilled = warm_all config (desired config p.pools [] images) p in
      (refill_result refilled.0, refilled.1)

  unfoldable pub stop_all : List V → Pools S V → Pools S V
  stop_all [] p = p
  stop_all (vm ∷ vms) p =
      let s = (backend.stop vm p.outside).1 in
      stop_all vms (record { pools = backend.meanwhile s p.pools; outside = s })

  unfoldable pub drain : Pools S V → Result {0, 0} Unit E × Pools S V
  drain p = (ok tt, stop_all (all_vms p.pools) (record { pools = []; outside = p.outside }))
