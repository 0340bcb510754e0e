-- ===== src/Mempool/Run.antt =====
-- Sequences of calls of `get_memory` and `put_memory` without dynamic allocation.
use rmw_microxrcedds.Prelude.{◌≡◌, refl, ◌∙◌, Bool, true, false, ◌&&◌, List, [], ◌∷◌}
use rmw_microxrcedds.Pool
use rmw_microxrcedds.Pool.{Pool, Call, gets, puts}
use rmw_microxrcedds.Mempool.{Mempool, Fresh, put_memory, get_memory}
use rmw_microxrcedds.Mempool.Refinement.{Models, put_memory-refines}
use rmw_microxrcedds.Mempool.Get.{get_memory-refines}

-- The arguments of `get_memory` for the new memory are not used.
abbrev no_fresh : Fresh
no_fresh = record { item = 0; contents = 0 }

pub step : Mempool → Call → Mempool
step m gets = (get_memory false no_fresh m).1
step m (puts p) = put_memory false m p

pub run : Mempool → List Call → Mempool
run m [] = m
run m (c ∷ cs) = run (step m c) cs

and_false : (b : Bool) → (b && false) ≡ false
and_false true = refl
and_false false = refl

-- From a pool whose linked lists are those of an abstract pool, along any sequence of calls in
-- which the client puts back only items that it holds, the linked lists follow the lists of the
-- abstract pool, and no item is lost or made.
pub run-refines :
    (m : Mempool) (p : Pool) (cs : List Call)
    → Models m p
    → Pool.Legal p cs
    → Models (run m cs) (Pool.run p cs) × (Pool.size (Pool.run p cs) ≡ Pool.size p)
unfolding run step Pool.run
run-refines m p [] w legal = (w, refl)
run-refines m p (gets ∷ cs) w legal =
    let t = get_memory-refines false no_fresh m p w (and_false m.is_dynamic_allowed) in
    let ih = run-refines (get_memory false no_fresh m).1 (Pool.get p).1 cs t.1 legal in
    (ih.0, ih.1 ∙ Pool.get-size p)
run-refines m p (puts x ∷ cs) w legal =
    let t = put_memory-refines false m p x w legal.0 refl in
    let ih = run-refines (put_memory false m x) (Pool.put x p) cs t legal.1 in
    (ih.0, ih.1 ∙ Pool.put-size x p legal.0)
