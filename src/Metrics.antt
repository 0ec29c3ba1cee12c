-- ===== src/Metrics.antt =====
-- metrics.go: the process-wide counters, each a 64-bit word that is read as a signed number.
pub mod Balance
use rustygo.Base.{
  ℕ, ◌+◌, ◌-◌, ◌%◌, ◌^◌, ℤ, u64, sub64, to_i64, leb_ℤ, ltb, if◌then◌else◌, is_positive, pos_part,
}

pub record Metrics : Type 0 where
  pub allocated_bytes : ℕ
  pub used_bytes : ℕ
  pub active_arenas : ℕ
  pub active_scopes : ℕ
  pub high_water_mark_bytes : ℕ
  pub gc_bypassed_bytes_total : ℕ

-- One round of the compare-and-swap loop.
unfoldable pub update_high_water : Metrics → ℕ → Metrics
update_high_water m current =
    if leb_ℤ (to_i64 current) (to_i64 m.high_water_mark_bytes)
    then m
    else record m { high_water_mark_bytes = current }

unfoldable pub record_arena_created : Metrics → ℕ → Metrics
unfolding update_high_water
record_arena_created m slab_bytes =
    let alloc = u64 (m.allocated_bytes + slab_bytes) in
    update_high_water
      (record m { allocated_bytes = alloc; active_arenas = u64 (m.active_arenas + 1) }) alloc

unfoldable pub record_arena_closed : Metrics → ℕ → Metrics
record_arena_closed m slab_bytes = record m {
  allocated_bytes = sub64 m.allocated_bytes slab_bytes;
  active_arenas = sub64 m.active_arenas 1;
}

unfoldable pub record_scope_enter : Metrics → Metrics
record_scope_enter m = record m { active_scopes = u64 (m.active_scopes + 1) }

-- The argument is an `int`.
unfoldable pub record_scope_exit : Metrics → ℤ → Metrics
record_scope_exit m used_bytes =
    let m' = record m { active_scopes = sub64 m.active_scopes 1 } in
    if is_positive used_bytes
    then record m' {
      gc_bypassed_bytes_total = u64 (m.gc_bypassed_bytes_total + pos_part used_bytes);
    }
    else m'

pub record MetricsSnapshot : Type 0 where
  pub allocated_bytes : ℤ
  pub active_arenas : ℤ
  pub active_scopes : ℤ
  pub high_water_mark_bytes : ℤ
  pub gc_bypassed_bytes_total : ℕ

unfoldable pub snapshot : Metrics → MetricsSnapshot
snapshot m = record {
  allocated_bytes = to_i64 m.allocated_bytes;
  active_arenas = to_i64 m.active_arenas;
  active_scopes = to_i64 m.active_scopes;
  high_water_mark_bytes = to_i64 m.high_water_mark_bytes;
  gc_bypassed_bytes_total = m.gc_bypassed_bytes_total;
}
