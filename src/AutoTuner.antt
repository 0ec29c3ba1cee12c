-- ===== src/AutoTuner.antt =====
-- autotune.go: the size of an arena, learned for each call site. The floating-point products are parameters.
pub mod Sizes
use rustygo.Base.{
  ℕ, suc, ◌+◌, ◌-◌, Bool, true, false, ◌&&◌, Option, none, some, List, [], ◌∷◌, ◌==◌, if◌then◌else◌,
  ℤ, pos, negsuc, pos_part, is_positive, ltb_ℤ, bit_and, to_i64, to_u64, not64, add_int, Result,
}
use rustygo.Memory.{Os, Error}
use rustygo.Metrics.{Metrics}
use rustygo.Arena.State.{Arena, new_arena}

pub record SiteStats : Type 0 where
  pub estimated_bytes : ℤ
  pub samples : ℤ

-- A key is a number. The map is a list.
pub record AutoTuner : Type 0 where
  pub sites : List (ℕ × SiteStats)
  pub min_slab : ℤ
  pub max_slab : ℤ

abbrev pub default_min_slab : ℤ
default_min_slab = pos 4096

abbrev pub default_max_slab : ℤ
default_max_slab = pos 67108864

unfoldable pub new_auto_tuner : ℤ → ℤ → AutoTuner
new_auto_tuner min_slab max_slab =
    let low = if is_positive min_slab then min_slab else default_min_slab in
    record {
      sites = [];
      min_slab = low;
      max_slab = if ltb_ℤ max_slab low then default_max_slab else max_slab;
    }

unfoldable pub site : ℕ → List (ℕ × SiteStats) → Option SiteStats
site key [] = none
site key ((k, s) ∷ rest) = let found = site key rest in if key == k then some s else found

unfoldable pub put_site : ℕ → SiteStats → List (ℕ × SiteStats) → List (ℕ × SiteStats)
put_site key s [] = (key, s) ∷ []
put_site key s ((k, t) ∷ rest) =
    let others = put_site key s rest in if key == k then (key, s) ∷ rest else (k, t) ∷ others

-- `(target + 4095) & ^4095`, in 64-bit arithmetic.
abbrev pub page_up : ℤ → ℤ
page_up target = to_i64 (bit_and (to_u64 (add_int target (pos 4095))) (not64 4095))

abbrev pub clamp : ℤ → ℤ → ℤ → ℤ
clamp min_slab max_slab target =
    let raised = if ltb_ℤ target min_slab then min_slab else target in
    if ltb_ℤ max_slab raised then max_slab else raised

-- `average` is `int(float64(old)*0.7 + float64(new)*0.3)`, `headroom` is `int(float64(estimate) * 1.25)`.
module _ (average : ℤ → ℤ → ℤ) (headroom : ℤ → ℤ) where
  abbrev pub learned : Option SiteStats → ℤ → SiteStats
  learned none used = record { estimated_bytes = used; samples = pos 1 }
  learned (some s) used = record {
    estimated_bytes = average s.estimated_bytes used;
    samples = add_int s.samples (pos 1);
  }

  unfoldable pub calibrate : AutoTuner → ℕ → ℤ → AutoTuner
  unfolding site put_site
  calibrate t key used =
      if is_positive used
      then record t { sites = put_site key (learned (site key t.sites) used) t.sites }
      else t

  abbrev pub recommended : AutoTuner → Option SiteStats → ℤ
  recommended t none = t.min_slab
  recommended t (some s) = page_up (clamp t.min_slab t.max_slab (headroom s.estimated_bytes))

  unfoldable pub recommended_size : AutoTuner → ℕ → ℤ
  unfolding site
  recommended_size t key = recommended t (site key t.sites)

  -- `global` is `GlobalAutoTuner`.
  unfoldable pub new_auto_tuned_arena : Os → AutoTuner → ℕ → Metrics → Result Error Arena × Metrics
  unfolding recommended_size
  new_auto_tuned_arena os global key m = new_arena os (recommended_size global key) [] m
