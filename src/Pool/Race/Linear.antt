-- ===== src/Pool/Race/Linear.antt =====
-- The lock-free stack acts as a stack: what took effect, in its order, is a run of a sequential stack.
use rustygo.Base.{
  ℕ, suc, ◌≤◌, ◌<◌, ◌≡◌, ◌≢◌, refl, sym, ap, ◌∙◌, Option, none, some, List, [], ◌∷◌, arith,
}
use mathlib.Core.Path.{subst}
use native.Mathlib.Decide.{ℕ_discrete, dec_le}
use rustygo.Base.Every.{All}
use rustygo.Pool.Race.{
  Node, Pc, idle, allocating, making, loaded, ready, freeing, saw, linked, pushed, popped, missed,
  Treiber, update, goes, Step, alloc, load_nil, new_fn, load, read_next, pop, pop_lost, free,
  load_head, write_next, push, push_lost, Reach, start, next_step,
}
use rustygo.Pool.Race.Places.{
  Replay, Chain, vals, StackRun, Place, unused, shared, private_to, private_inj, unused_ne_shared,
  unused_ne_private, none_ne_some, some_inj, shared_ne_private, Fine, Stays, Fine-Stays,
  Chain-Stays, update_at, update_off,
}

record Inv (s : Treiber) : Type 0 where
  place : ℕ → Place
  -- no address behind the next one is taken
  ahead : (n : ℕ) → s.fresh ≤ n → place n ≡ unused
  stack : List ℕ
  on_stack : All (λ x. place x ≡ shared) stack
  chain : Chain s.nodes s.head stack
  fine : (j : ℕ) → Fine place s.nodes j (s.pc j)
  replay : Replay s.log (vals s.nodes stack)

Fine-update :
    (place : ℕ → Place) (nodes : ℕ → Node) (pc : ℕ → Pc) (i : ℕ) (p : Pc)
    → Fine place nodes i p
    → ((j : ℕ) → i ≢ j → Fine place nodes j (pc j))
    → (j : ℕ) → Fine place nodes j (update pc i p j)
Fine-update place nodes pc i p h k j =
    elim (ℕ_discrete i j) as (λ d. Fine place nodes j (elim d [ yes _ ↦ p | no _ ↦ pc j ])) [
      | yes e ↦ subst (λ x. Fine place nodes x p) e h
      | no ne ↦ k j ne
    ]

module _ (s : Treiber) (inv : Inv s) where
  at_pc : (i : ℕ) (p : Pc) → s.pc i ≡ p → Fine inv.place s.nodes i p
  at_pc i p e = subst (Fine inv.place s.nodes i) e (inv.fine i)

  moves :
      (i : ℕ) (p : Pc)
      → Fine inv.place s.nodes i p
      → (j : ℕ) → Fine inv.place s.nodes j (update s.pc i p j)
  moves i p h = Fine-update inv.place s.nodes s.pc i p h (λ j ne. inv.fine j)

  goes-Inv : (i : ℕ) (p : Pc) → Fine inv.place s.nodes i p → Inv (goes s i p)
  goes-Inv i p h = record {
    place = inv.place;
    ahead = inv.ahead;
    stack = inv.stack;
    on_stack = inv.on_stack;
    chain = inv.chain;
    fine = moves i p h;
    replay = inv.replay;
  }

  -- On an empty stack nothing is linked.
  load_nil-Inv :
      (i : ℕ) → s.head ≡ none → Inv (record s { pc = update s.pc i making; log = missed ∷ s.log })
  load_nil-Inv i e = empty inv.stack inv.chain inv.replay
    where
      empty :
          (ns : List ℕ)
          → Chain s.nodes s.head ns
          → Replay s.log (vals s.nodes ns)
          → Inv (record s { pc = update s.pc i making; log = missed ∷ s.log })
      empty [] c r = record {
        place = inv.place;
        ahead = inv.ahead;
        stack = [];
        on_stack = tt;
        chain = c;
        fine = moves i making tt;
        replay = (refl, r);
      }
      empty (n ∷ ns) (h, c) r = absurd (none_ne_some (sym e ∙ h))

  pop-Inv :
      (i h : ℕ) (n : Option ℕ)
      → s.pc i ≡ ready h n
      → s.head ≡ some h
      → Inv (record s { head = n; pc = update s.pc i idle; log = popped (s.nodes h).val ∷ s.log })
  pop-Inv i h n e top = taken inv.stack inv.on_stack inv.chain inv.replay
    where
      taken :
          (ns : List ℕ)
          → All (λ x. inv.place x ≡ shared) ns
          → Chain s.nodes s.head ns
          → Replay s.log (vals s.nodes ns)
          → Inv
              (record s { head = n; pc = update s.pc i idle; log = popped (s.nodes h).val ∷ s.log })
      taken [] a c r = absurd (none_ne_some (sym c ∙ top))
      taken (x ∷ ns) (a, rest) (head_x, c) r =
          let same : x ≡ h = some_inj (sym head_x ∙ top) in
          record {
            place = inv.place;
            ahead = inv.ahead;
            stack = ns;
            on_stack = rest;
            chain = rw (ap (λ y. (s.nodes y).next) same ∙ (at_pc i (ready h n) e).1) at c;
            fine = moves i idle tt;
            replay = rw same at r;
          }

  -- A write to a node that only the goroutine `i` can know.
  module _ (i n : ℕ) (a : Node) (fresh : ℕ) (p : Pc) (hidden : inv.place n ≢ shared)
      (own : (j : ℕ) → i ≢ j → inv.place n ≢ private_to j) (below : n < fresh)
      (grows : s.fresh ≤ fresh) where
    place' : ℕ → Place
    place' = update inv.place n (private_to i)

    nodes' : ℕ → Node
    nodes' = update s.nodes n a

    stays : (q : Place) → inv.place n ≢ q → Stays inv.place s.nodes place' nodes' q
    unfolding place' nodes'
    stays q ne x e =
        let apart : n ≢ x = λ same. ne (ap inv.place same ∙ e) in
        (update_off inv.place n x (private_to i) apart ∙ e, update_off s.nodes n x a apart)

    write-Inv :
        Fine place' nodes' i p
        → Inv (record s { nodes = nodes'; fresh = fresh; pc = update s.pc i p })
    unfolding place' nodes'
    write-Inv h =
        let (rest, c, v) =
          Chain-Stays inv.place s.nodes place' nodes' (stays shared hidden) s.head inv.stack
            inv.on_stack inv.chain in
        record {
          place = place';
          ahead = λ m le.
              update_off inv.place n m (private_to i) (λ e. omega arith)
              ∙ inv.ahead m (omega arith);
          stack = inv.stack;
          on_stack = rest;
          chain = c;
          fine = Fine-update place' nodes' s.pc i p h (λ j ne.
              Fine-Stays inv.place s.nodes place' nodes' (stays shared hidden) j
                (stays (private_to j) (own j ne)) (s.pc j) (inv.fine j));
          replay = rw v inv.replay;
        }

  free-Inv :
      (i obj : ℕ)
      → Inv (record s {
        nodes = update s.nodes s.fresh (record { val = obj; next = none });
        fresh = suc s.fresh;
        pc = update s.pc i (freeing s.fresh);
      })
  unfolding place' nodes'
  free-Inv i obj =
      let new = inv.ahead s.fresh (omega arith) in
      write-Inv i s.fresh (record { val = obj; next = none }) (suc s.fresh) (freeing s.fresh)
        (λ e. unused_ne_shared (sym new ∙ e)) (λ j ne e. unused_ne_private (sym new ∙ e))
        (omega arith) (omega arith) (update_at inv.place s.fresh (private_to i))

  known : (i n : ℕ) → inv.place n ≡ private_to i → n < s.fresh
  known i n mine = elim (dec_le s.fresh n) [
    | yes le ↦ absurd (unused_ne_private (sym (inv.ahead n le) ∙ mine))
    | no below ↦ omega arith
  ]

  write_next-Inv :
      (i n : ℕ) (h : Option ℕ)
      → s.pc i ≡ saw n h
      → Inv (record s {
        nodes = update s.nodes n (record { val = (s.nodes n).val; next = h });
        pc = update s.pc i (linked n h);
      })
  unfolding place' nodes'
  write_next-Inv i n h e =
      let mine = at_pc i (saw n h) e in
      write-Inv i n (record { val = (s.nodes n).val; next = h }) s.fresh (linked n h)
        (λ q. shared_ne_private (sym q ∙ mine)) (λ j ne q. ne (private_inj (sym mine ∙ q)))
        (known i n mine) (omega arith)
        (
          update_at inv.place n (private_to i),
          ap (λ (x : Node). x.next)
              (update_at s.nodes n (record { val = (s.nodes n).val; next = h })),
        )

  publish_shared : (n x : ℕ) → inv.place x ≡ shared → update inv.place n shared x ≡ shared
  publish_shared n x q =
      elim (ℕ_discrete n x) as (λ d. (elim d [ yes _ ↦ shared | no _ ↦ inv.place x ]) ≡ shared) [
        | yes _ ↦ refl
        | no _ ↦ q
      ]

  publish_other :
      (n x i j : ℕ)
      → inv.place n ≡ private_to i
      → i ≢ j
      → inv.place x ≡ private_to j
      → update inv.place n shared x ≡ private_to j
  publish_other n x i j mine ne q =
      update_off inv.place n x shared (λ same. ne (private_inj (sym mine ∙ ap inv.place same ∙ q)))
      ∙ q

  push-Inv :
      (i n : ℕ) (h : Option ℕ)
      → s.pc i ≡ linked n h
      → s.head ≡ h
      → Inv (record s {
        head = some n;
        pc = update s.pc i idle;
        log = pushed (s.nodes n).val ∷ s.log;
      })
  push-Inv i n h e top =
      let (mine, link) = at_pc i (linked n h) e in
      let place'' : ℕ → Place = update inv.place n shared in
      let published : Stays inv.place s.nodes place'' s.nodes shared =
        λ x q. (publish_shared n x q, refl) in
      let (rest, c, v) =
        Chain-Stays inv.place s.nodes place'' s.nodes published s.head inv.stack inv.on_stack
          inv.chain in
      record {
        place = place'';
        ahead = λ m le.
            update_off inv.place n m shared (λ q. omega (arith, known i n mine)) ∙ inv.ahead m le;
        stack = n ∷ inv.stack;
        on_stack = (update_at inv.place n shared, rest);
        chain = (refl, rw (link ∙ sym top) c);
        fine = Fine-update place'' s.nodes s.pc i idle tt (λ j ne.
            Fine-Stays inv.place s.nodes place'' s.nodes published j
              (λ x q. (publish_other n x i j mine ne q, refl)) (s.pc j) (inv.fine j));
        replay = (vals s.nodes inv.stack, refl, inv.replay);
      }

Step-Inv : (s t : Treiber) → Inv s → Step s t → Inv t
Step-Inv s t inv (alloc i e) = goes-Inv s inv i allocating tt
Step-Inv s t inv (load_nil i e h) = load_nil-Inv s inv i h
Step-Inv s t inv (new_fn i e) = goes-Inv s inv i idle tt
Step-Inv s t inv (load i h e top) =
    goes-Inv s inv i (loaded h) (top_shared inv.stack inv.on_stack inv.chain)
  where
    top_shared :
        (ns : List ℕ)
        → All (λ x. inv.place x ≡ shared) ns
        → Chain s.nodes s.head ns
        → inv.place h ≡ shared
    top_shared [] a c = absurd (none_ne_some (sym c ∙ top))
    top_shared (x ∷ ns) (a, rest) (head_x, c) = rw (some_inj (sym head_x ∙ top)) at a
Step-Inv s t inv (read_next i h e) =
    goes-Inv s inv i (ready h (s.nodes h).next) (at_pc s inv i (loaded h) e, refl)
Step-Inv s t inv (pop i h n e top) = pop-Inv s inv i h n e top
Step-Inv s t inv (pop_lost i h n e ne) = goes-Inv s inv i allocating tt
Step-Inv s t inv (free i obj e) = free-Inv s inv i obj
Step-Inv s t inv (load_head i n e) = goes-Inv s inv i (saw n s.head) (at_pc s inv i (freeing n) e)
Step-Inv s t inv (write_next i n h e) = write_next-Inv s inv i n h e
Step-Inv s t inv (push i n h e top) = push-Inv s inv i n h e top
Step-Inv s t inv (push_lost i n h e ne) =
    goes-Inv s inv i (freeing n) (at_pc s inv i (linked n h) e).0

Reach-Inv : {s : Treiber} → Reach s → Inv s
Reach-Inv start = record {
  place = λ n. unused;
  ahead = λ n le. refl;
  stack = [];
  on_stack = tt;
  chain = refl;
  fine = λ j. tt;
  replay = refl;
}
Reach-Inv (next_step r st) = Step-Inv _ _ (Reach-Inv r) st

-- However the loops of any number of goroutines interleave: the nodes from the head on are a finite chain, and
-- the pushes, the pops with their results and the misses, in the order in which they took effect, are a run of
-- a sequential stack of objects that leaves the objects of the chain.
pub Reach-StackRun : (s : Treiber) → Reach s → StackRun s
Reach-StackRun s r = let inv = Reach-Inv r in (inv.stack, inv.chain, inv.replay)
