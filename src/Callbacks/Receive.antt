-- ===== src/Callbacks/Receive.antt =====
-- What the shared part of the callbacks keeps: the pool of buffers, and every entity's quota.
use rmw_microxrcedds.Prelude.{
  ℕ, ◌≤◌, ◌≡◌, refl, sym, ap, ◌∙◌, ◌≢◌, inl, inr, false, ◌||◌, List, [], ◌∷◌, arith, Bool-cases,
  ==_self, ◌==◌, has, Distinct, Apart, remove, has_of_remove, Distinct-remove,
}
use rmw_microxrcedds.Prelude.Int.{ℤ}
use rmw_microxrcedds.Pool
use rmw_microxrcedds.Pool.{Pool}
use rmw_microxrcedds.Types.{Ptr, QosProfile, EntityType, Related, StaticInputBuffer, Buffers}
use rmw_microxrcedds.StaticBuffer.{Slots, put_buffer}
use rmw_microxrcedds.StaticBuffer.Find.{IsOldest}
use rmw_microxrcedds.StaticBuffer.Quota.{owned, IsWithin, get_static_input_buffer-cases}
use rmw_microxrcedds.Callbacks.{Reader, update, fill, store, receive}

-- The allocated and the free buffers are distinct items.
pub record IsSound (p : Pool) : Type 0 where
  pub allocated_once : Distinct p.allocated
  pub free_once : Distinct p.free
  pub apart : Apart p.allocated p.free

pub owned-update_new :
    (slot : Slots) (entity x : Ptr) (d : StaticInputBuffer) (xs : List Ptr)
    → has x xs ≡ false
    → owned (update slot x d) entity xs ≡ owned slot entity xs
owned-update_new slot entity x d [] out = refl
owned-update_new slot entity x d (y ∷ xs) out = ground (arith, owned-update_new slot entity x d xs)

pub owned-update_same :
    (slot : Slots) (entity x : Ptr) (d : StaticInputBuffer) (xs : List Ptr)
    → d.owner ≡ (slot x).owner
    → owned (update slot x d) entity xs ≡ owned slot entity xs
owned-update_same slot entity x d [] same = refl
owned-update_same slot entity x d (y ∷ xs) same =
    ground (arith, owned-update_same slot entity x d xs same)

pub owned-remove :
    (slot : Slots) (entity x : Ptr) (xs : List Ptr)
    → owned slot entity (remove x xs) ≤ owned slot entity xs
owned-remove slot entity x [] = omega arith
owned-remove slot entity x (y ∷ xs) = ground (arith, owned-remove slot entity x xs)

remove_first : (y : Ptr) (xs : List Ptr) → remove y (y ∷ xs) ≡ xs
remove_first y xs = rw (==_self y)

-- The buffers after a callback, against those before it.
pub record Received (entity : Ptr) (qos : QosProfile) (b c : Buffers) : Type 0 where
  pub sound : IsSound c.memory
  pub quota :
      qos.depth ≢ 0
      → owned b.slot entity b.memory.allocated ≤ qos.depth
      → owned c.slot entity c.memory.allocated ≤ qos.depth
  pub others :
      (e : Ptr) → e ≢ entity → owned c.slot e c.memory.allocated ≤ owned b.slot e b.memory.allocated

module _ (entity : Ptr) (qos : QosProfile) (entity_type : EntityType) (relate : Related → Related)
    (read : Reader) (length : ℕ) (now_ns : ℤ) (b : Buffers) (w : IsSound b.memory) where
  module _ (y : Ptr) (ys : List Ptr) (free : b.memory.free ≡ y ∷ ys)
      (within : IsWithin b entity qos) where
    -- The buffer is in the free list only.
    new : has y b.memory.allocated ≡ false
    new = elim (Bool-cases (has y b.memory.allocated)) [
      | inl both ↦ absurd (ground (arith, w.apart y both))
      | inr out ↦ out
    ]

    rest_once : (has y ys ≡ false) × Distinct ys
    rest_once = rw free at w.free_once

    got : Buffers
    got = record b { memory = record { allocated = y ∷ b.memory.allocated; free = ys } }

    split : (a : ℕ) → has a b.memory.free ≡ ((a == y) || has a ys)
    split a = ap (has a) free

    got-IsSound : IsSound got.memory
    unfolding got
    got-IsSound = record {
      allocated_once = (new, w.allocated_once);
      free_once = rest_once.1;
      apart = λ a i. ground (arith, w.apart a, split a, rest_once.0);
    }

    back-IsSound : IsSound (Pool.put y got.memory)
    unfolding got Pool.put
    back-IsSound = rw (remove_first y b.memory.allocated) (record {
      allocated_once = w.allocated_once;
      free_once = rest_once;
      apart = λ a i. ground (arith, w.apart a, split a);
    })

    -- The owner of the new buffer has one more, and it is within its quota.
    filled-Received :
        (d : StaticInputBuffer)
        → d.owner ≡ entity
        → Received entity qos b (record got { slot = update b.slot y d })
    unfolding got
    filled-Received d mine = record {
      sound = got-IsSound;
      quota = λ ne h. ground (arith, owned-update_new b.slot entity y d b.memory.allocated new);
      others = λ e ne. ground (arith, owned-update_new b.slot e y d b.memory.allocated new);
    }

    returned-Received :
        (d : StaticInputBuffer)
        → Received entity qos b (put_buffer y (record got { slot = update b.slot y d }))
    unfolding got put_buffer
    returned-Received d = record {
      sound = back-IsSound;
      quota = λ ne h.
          unfold Pool.put in
          (rw (remove_first y b.memory.allocated)
            (rw (owned-update_new b.slot entity y d b.memory.allocated new) h));
      others = λ e ne.
          unfold Pool.put in
          (rw (remove_first y b.memory.allocated)
            (rw (owned-update_new b.slot e y d b.memory.allocated new) (omega arith)));
    }

    store_free-Received :
        Received entity qos b (store entity entity_type relate read length now_ns y got)
    unfolding store got
    store_free-Received = elim (Bool-cases (read length).0) [
      | inl done ↦ rw done (
          unfold fill in
          (filled-Received (fill entity entity_type relate length (read length).1 now_ns (b.slot y))
            refl))
      | inr failed ↦ rw failed (returned-Received (record (b.slot y) { buffer = (read length).1 }))
    ]

  module _ (y : Ptr) (old : IsOldest b.slot entity b.memory.allocated y) where
    dropped-IsSound : IsSound (Pool.put y b.memory)
    unfolding Pool.put
    dropped-IsSound = record {
      allocated_once = Distinct-remove y b.memory.allocated w.allocated_once;
      free_once = (w.apart y old.listed, w.free_once);
      apart = λ a i.
          let (ne, held) = has_of_remove a y b.memory.allocated w.allocated_once i in
          ground (arith, w.apart a held);
    }

    overwritten-Received :
        (d : StaticInputBuffer)
        → d.owner ≡ entity
        → Received entity qos b (record b { slot = update b.slot y d })
    overwritten-Received d mine =
        let same : d.owner ≡ (b.slot y).owner = mine ∙ sym old.owned in
        record {
          sound = w;
          quota = λ ne h. rw (owned-update_same b.slot entity y d b.memory.allocated same) h;
          others =
              λ e ne. rw (owned-update_same b.slot e y d b.memory.allocated same) (omega arith);
        }

    dropped-Received :
        (d : StaticInputBuffer)
        → d.owner ≡ (b.slot y).owner
        → Received entity qos b (put_buffer y (record b { slot = update b.slot y d }))
    unfolding put_buffer Pool.put
    dropped-Received d same = record {
      sound = dropped-IsSound;
      quota = λ ne h.
          rw (owned-update_same b.slot entity y d (remove y b.memory.allocated) same)
            (omega (arith, owned-remove b.slot entity y b.memory.allocated));
      others = λ e ne.
          rw (owned-update_same b.slot e y d (remove y b.memory.allocated) same)
            (owned-remove b.slot e y b.memory.allocated);
    }

    store_oldest-Received :
        Received entity qos b (store entity entity_type relate read length now_ns y b)
    unfolding store
    store_oldest-Received = elim (Bool-cases (read length).0) [
      | inl done ↦ rw done (
          unfold fill in
          (overwritten-Received
            (fill entity entity_type relate length (read length).1 now_ns (b.slot y)) refl))
      | inr failed ↦
          rw failed (dropped-Received (record (b.slot y) { buffer = (read length).1 }) refl)
    ]

  -- On a sound pool, a callback keeps the pool's items distinct and the entity within its depth,
  -- and no other entity gets more buffers.
  pub receive-Received :
      Received entity qos b (receive entity qos entity_type relate read length now_ns b)
  unfolding receive
  receive-Received = elim (get_static_input_buffer-cases b entity qos) [
    | inl e ↦ rw e (record { sound = w; quota = λ ne h. h; others = λ x ne. omega arith })
    | inr (inl (y, ys, free, within, e)) ↦ rw e (unfold got in store_free-Received y ys free within)
    | inr (inr (y, old, e)) ↦ rw e (store_oldest-Received y old)
  ]
