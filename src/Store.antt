-- ===== src/Store.antt =====
-- The stores of entities (common/store/store.go): the interface that the services use, what they rely on,
-- and in the children the in-memory implementation (common/memorystore/memorystore.go).
pub mod Memory
pub mod Paging
use cfm.Prelude.{ℕ, ◌≡◌, String, Bool, Option, none, some, List}
use cfm.Errors.{Error, Result, ok, err, err_not_found}

pub data LockMode : Type 0 where
  lock_shared lock_exclusive : LockMode

-- EntityStore, with the calls that the services make. A sequence is given as collection.CollectAllDeref
-- collects it: the entities, or the first error. A predicate is a test on entities. Locks are no part of
-- the world: a lock either is granted, or the call fails.
pub record EntityStore (World Entity : Type 0) : Type 0 where
  pub find_by_id : World → String → Result Entity
  pub find_by_id_and_lock : World → String → LockMode → Result Entity
  pub create : World → Entity → World × Result Entity
  pub update : World → Entity → World × Option Error
  pub delete : World → String → World × Option Error
  pub get_all : World → Result (List Entity)
  pub find_by_predicate : World → (Entity → Bool) → Result (List Entity)
  pub count_by_predicate : World → (Entity → Bool) → Result ℕ

-- What a store promises: an entity is found as it was written, with the next version after an update,
-- and not found after it was deleted.
pub record IsLawful {World Entity : Type 0} (get_id : Entity → String)
    (increment_version : Entity → Entity) (s : EntityStore World Entity) : Type 0 where
  pub find-create :
      (w : World) (e : Entity) (w' : World) (e' : Entity)
      → s.create w e ≡ (w', ok e')
      → (s.find_by_id w' (get_id e) ≡ ok e) × (e' ≡ e)
  pub find-update :
      (w : World) (e : Entity) (w' : World)
      → s.update w e ≡ (w', none)
      → s.find_by_id w' (get_id e) ≡ ok (increment_version e)
  pub find-delete :
      (w : World) (k : String) (w' : World)
      → s.delete w k ≡ (w', none)
      → s.find_by_id w' k ≡ err err_not_found
