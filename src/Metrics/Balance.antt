-- ===== src/Metrics/Balance.antt =====
-- The counters go up and down together.
use rustygo.Base.{ℕ, ◌+◌, ◌^◌, ◌<◌, ◌≡◌, arith, ℤ, u64, sub64, to_i64, ap, ◌∙◌, leb_ℤ, true}
use rustygo.Metrics.{
  Metrics, update_high_water, record_arena_created, record_arena_closed, record_scope_enter,
  record_scope_exit, snapshot,
}

pub record IsWords (m : Metrics) : Type 0 where
  pub allocated : m.allocated_bytes < 2 ^ 64
  pub arenas : m.active_arenas < 2 ^ 64
  pub scopes : m.active_scopes < 2 ^ 64

update_high_water_lem :
    (m : Metrics) (c : ℕ)
    → let m' = update_high_water m c in
      (m'.allocated_bytes ≡ m.allocated_bytes)
      × (m'.active_arenas ≡ m.active_arenas)
      × (m'.active_scopes ≡ m.active_scopes)
      × (m'.gc_bypassed_bytes_total ≡ m.gc_bypassed_bytes_total)
      × (leb_ℤ (to_i64 m.high_water_mark_bytes) (to_i64 m'.high_water_mark_bytes) ≡ true)
unfolding update_high_water
update_high_water_lem m c = ground arith

-- Creating an arena and closing it with the same size, below 2 ^ 63, leaves every gauge of the snapshot as it
-- was, also where a word wraps, and the high-water mark is not lowered on the way.
pub created-closed :
    (m : Metrics) (n : ℕ)
    → IsWords m
    → n < 2 ^ 63
    → let s = snapshot (record_arena_closed (record_arena_created m n) n) in
      (s.allocated_bytes ≡ (snapshot m).allocated_bytes)
      × (s.active_arenas ≡ (snapshot m).active_arenas)
      × (s.active_scopes ≡ (snapshot m).active_scopes)
      × (s.gc_bypassed_bytes_total ≡ (snapshot m).gc_bypassed_bytes_total)
      × (leb_ℤ (snapshot m).high_water_mark_bytes s.high_water_mark_bytes ≡ true)
unfolding snapshot record_arena_closed record_arena_created
created-closed m n v h =
    let m' = record m {
      allocated_bytes = u64 (m.allocated_bytes + n);
      active_arenas = u64 (m.active_arenas + 1);
    } in
    let (a, r, s, g, w) = update_high_water_lem m' (u64 (m.allocated_bytes + n)) in
    (
      ap (λ x. to_i64 (sub64 x n)) a ∙ ground (arith, v),
      ap (λ x. to_i64 (sub64 x 1)) r ∙ ground (arith, v),
      ap to_i64 s,
      g,
      w,
    )

pub enter-exit :
    (m : Metrics) (used : ℤ)
    → IsWords m
    → (snapshot (record_scope_exit (record_scope_enter m) used)).active_scopes
      ≡ (snapshot m).active_scopes
unfolding snapshot record_scope_enter record_scope_exit
enter-exit m used v = ground (arith, v)
