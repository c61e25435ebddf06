-- ===== src/Pool/Tests.antt =====
-- Runs of the pool of pool/manager.rs over a backend that numbers the VMs it creates.
use visor.Prelude.{ℕ, ◌+◌, ◌-◌, ◌≡◌, refl, true, [], ◌∷◌, ◌++◌, none, ok, if◌then◌else◌}
use native.Mathlib.Decide.{ℕ_discrete}
use visor.Prelude.Maps.{get, insert, remove}
use visor.Prelude.Texts.{Text, text_discrete}
use visor.Pool.{
  PoolConfig, Backend, Pools, target_size, vm_config_for_image, pop, pool_of, images_of, is_seen,
  desired, acquire, acquire_new, keep, warm_from, awaited, warm, warm_all, refill_once, drain,
  stop_all, all_vms, warm_result, note_error, refill_result, status, count_images,
}
use visor.Pool.Refill.{available, refill_once-fills}

abbrev numbering : Backend ℕ ℕ Text
numbering = record {
  create = λ config n. (ok n, n + 1);
  create_from_snapshot = λ config dir n. (ok n, n + 1);
  stop = λ vm n. (true, n);
  cached_snapshot = λ config n. ok none;
  meanwhile = λ n pools. pools;
}

abbrev web : Text
web = b'w' ∷ []

abbrev config : PoolConfig
config = record {
  default_size = 3;
  image_configs = (web, record { size = 2; memory_mib = 256 }) ∷ [];
}

abbrev nothing : Pools ℕ ℕ
nothing = record { pools = []; outside = 0 }

refilled_pools : (refill_once numbering config nothing).1.pools ≡ (web, 0 ∷ 1 ∷ []) ∷ []
unfolding refill_once warm_all warm warm_from keep awaited desired is_seen images_of pool_of
    target_size vm_config_for_image note_error refill_result warm_result get insert remove
    text_discrete ℕ_discrete
refilled_pools = refl

-- The VM that was warmed last is handed out first.
acquired_last :
    (acquire numbering config web (record { pools = (web, 0 ∷ 1 ∷ []) ∷ []; outside = 2 })).0 ≡ ok 1
unfolding acquire pop pool_of get text_discrete ℕ_discrete
acquired_last = refl

acquired_new : (acquire numbering config web nothing).0 ≡ ok 0
unfolding acquire acquire_new pop pool_of get
acquired_new = refl

drained : (drain numbering (record { pools = (web, 0 ∷ []) ∷ []; outside = 2 })).1.pools ≡ []
unfolding drain stop_all all_vms
drained = refl

abbrev two_web : Pools ℕ ℕ
two_web = record { pools = (web, 0 ∷ 1 ∷ []) ∷ []; outside = 2 }

counted_total : (status config two_web).total ≡ 2
unfolding status count_images
counted_total = refl

refill_once-fills_example :
    (available web (refill_once numbering config nothing).1.pools
      ≡ available web nothing.pools
        + (if is_seen web (images_of config.image_configs ++ images_of nothing.pools)
            then target_size config web - available web nothing.pools
            else 0))
    × ((refill_once numbering config nothing).0 ≡ ok tt)
refill_once-fills_example =
    refill_once-fills numbering (λ image n pools. refl) (λ c s. refl) config web nothing

-- A VM that another call takes meanwhile is missing afterwards.
abbrev contended : Backend ℕ ℕ Text
contended = record numbering { meanwhile = λ n pools. [] }

refilled_contended : (refill_once contended config nothing).1.pools ≡ (web, 1 ∷ []) ∷ []
unfolding refill_once warm_all warm warm_from keep awaited desired is_seen images_of pool_of
    target_size vm_config_for_image note_error refill_result warm_result get insert remove
    text_discrete ℕ_discrete
refilled_contended = refl
