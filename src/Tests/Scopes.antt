-- ===== src/Tests/Scopes.antt =====
-- Theorems about scopes and typed allocation on concrete scopes.
use rustygo.Base.{
  ℕ, ◌+◌, ◌%◌, ◌≡◌, ◌≢◌, refl, true, false, none, [], arith, pos, ok, err, panic, scope_exited,
}
use rustygo.Memory.{scope_is_inactive}
use rustygo.Metrics.{record_scope_exit}
use rustygo.Scope.{Scope, Bytes, Exited, exit, on_exit, try_alloc, alloc_or_err}
use rustygo.Scope.Typed.{
  pointer, interface, scalar, struct, field, no_fields, TypeParam, on_heap, has_pointers,
  goes_to_heap, alloc_value,
}
use rustygo.Scope.Exits.{Left, Counts, exit_bytes, exit-on_exit, after_exit, try_alloc-Counts}
use rustygo.Scope.Interfaces.{interface_off_heap, InArena, boxed}
use rustygo.Region.{Around}
use rustygo.Tests.Data.{
  test_os, test_os-IsOs, test_arena, test_arena-IsValid, test_metrics, test_scope,
}

abbrev test_bytes : Bytes
test_bytes i x = x % 256

abbrev exited : Exited ℕ
exited = record {
  scope = record test_scope { active = false; cleanups = []; allocs = [] };
  world = 42;
  bytes = rustygo.Scope.poison_all 0xdd test_scope.allocs test_bytes;
  metrics = record_scope_exit test_metrics (pos 5);
}

exits : exit test_scope 21 test_bytes test_metrics ≡ ok exited
unfolding exit rustygo.Scope.run_cleanups
exits = refl

try_alloc-Counts_example :
    Counts 24 (test_arena 0) test_scope (try_alloc test_os (test_arena 0) test_scope (pos 24))
try_alloc-Counts_example =
    try_alloc-Counts test_os (test_arena 0) test_scope 24 test_os-IsOs (test_arena-IsValid 0) refl
      (omega arith) (omega arith)

exit_bytes_example : Left test_scope test_bytes exited.bytes 1 4
exit_bytes_example = exit_bytes test_scope 21 test_bytes test_metrics exited 1 4 exits

exit-on_exit_example :
    exit (on_exit test_scope (λ w. w + 1)) 20 test_bytes test_metrics
    ≡ exit test_scope 21 test_bytes test_metrics
exit-on_exit_example = exit-on_exit test_scope (λ w. w + 1) 20 test_bytes test_metrics

after_exit_example :
    (exit exited.scope 1 test_bytes test_metrics ≡ panic scope_exited)
    × (try_alloc test_os (test_arena 0) exited.scope (pos 24) ≡ (none, test_arena 0, exited.scope))
    × (alloc_or_err test_os (test_arena 0) exited.scope (pos 24)
        ≡ (err scope_is_inactive, test_arena 0, exited.scope))
after_exit_example =
    after_exit test_scope 21 1 test_bytes test_bytes test_metrics test_metrics exited exits test_os
      (test_arena 0) (pos 24)

abbrev node : TypeParam
node = record { shape = struct (field scalar (field pointer no_fields)); size = 16; align = 8 }

abbrev any : TypeParam
any = record { shape = interface; size = 16; align = 8 }

abbrev word : TypeParam
word = record { shape = scalar; size = 8; align = 8 }

struct_not_interface : node.shape ≢ interface
struct_not_interface e = cc

node_has_pointers : has_pointers node.shape ≡ true
unfolding has_pointers
node_has_pointers = refl

word_off_heap : goes_to_heap word ≡ false
unfolding goes_to_heap
word_off_heap = refl

interface_off_heap_example :
    InArena 16 8 (test_arena 0) test_scope (alloc_value test_os (test_arena 0) test_scope any)
    × (alloc_value test_os (test_arena 0) test_scope (boxed any)
        ≡ (ok on_heap, test_arena 0, test_scope))
interface_off_heap_example =
    interface_off_heap test_os (test_arena 0) test_scope any 3 test_os-IsOs (test_arena-IsValid 0)
      refl refl (omega arith) (omega arith) refl (omega arith)

abbrev test_around : Around ℕ
test_around = record { world = 21; bytes = test_bytes; metrics = test_metrics }
