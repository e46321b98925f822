-- ===== src/Store/Memory/Laws.antt =====
-- What the in-memory store promises its clients (common/memorystore/memorystore.go).
use cfm.Prelude.{
  ◌≡◌, String, false, none, Map, insert, delete, lookup-insert, lookup-delete, eq_refl, str_eq,
  arith,
}
use cfm.Errors.{Result, ok}
use cfm.Store.{IsLawful}
use cfm.Store.Memory.{find_by_id, create, update, remove, in_memory_store}

module _ {Entity : Type 0} (get_id : Entity → String) (increment_version : Entity → Entity)
    (copy_entity : Entity → Result Entity) (copies_exactly : (e : Entity) → copy_entity e ≡ ok e)
    (keeps_id : (e : Entity) → get_id (increment_version e) ≡ get_id e) where
  find_by_id-insert :
      (cache : Map Entity) (k : String) (e : Entity)
      → find_by_id get_id increment_version copy_entity (insert cache k e) k ≡ ok e
  unfolding find_by_id
  find_by_id-insert cache k e =
      rw (find_by_id, lookup-insert cache k k e, eq_refl k, copies_exactly e)

  memory-create :
      (cache : Map Entity) (e : Entity) (cache' : Map Entity) (e' : Entity)
      → create get_id increment_version copy_entity cache e ≡ (cache', ok e')
      → (cache' ≡ insert cache (get_id e) e) × (e' ≡ e)
  unfolding create
  memory-create cache e cache' e' h = ground (arith, copies_exactly e)

  memory-update :
      (cache : Map Entity) (e : Entity) (cache' : Map Entity)
      → update get_id increment_version copy_entity cache e ≡ (cache', none)
      → cache' ≡ insert cache (get_id e) (increment_version e)
  unfolding update
  memory-update cache e cache' h = ground (arith, copies_exactly (increment_version e), keeps_id e)

  memory-remove :
      (cache : Map Entity) (k : String) (cache' : Map Entity)
      → remove get_id increment_version copy_entity cache k ≡ (cache', none)
      → cache' ≡ delete cache k
  unfolding remove
  memory-remove cache k cache' h = ground arith

  -- The in-memory store implements the contract of the entity stores, for entities that the copy through
  -- JSON leaves as they are and whose ID does not change with the version.
  pub in_memory_store-IsLawful :
      IsLawful get_id increment_version (in_memory_store get_id increment_version copy_entity)
  unfolding find_by_id
  in_memory_store-IsLawful = record {
    find-create = λ cache e cache' e' h.
        let (eq, same) = memory-create cache e cache' e' h in
        (rw eq (find_by_id-insert cache (get_id e) e), same);
    find-update = λ cache e cache' h.
        rw (memory-update cache e cache' h)
          (find_by_id-insert cache (get_id e) (increment_version e));
    find-delete = λ cache k cache' h.
        rw (memory-remove cache k cache' h, find_by_id, lookup-delete cache k k, eq_refl k);
  }

  -- Writing one entity leaves every other as it was: only the written ID is looked up differently.
  pub in_memory_store_frame :
      (cache : Map Entity) (e : Entity) (cache' : Map Entity) (k : String)
      → str_eq (get_id e) k ≡ false
      → update get_id increment_version copy_entity cache e ≡ (cache', none)
      → find_by_id get_id increment_version copy_entity cache' k
        ≡ find_by_id get_id increment_version copy_entity cache k
  unfolding find_by_id
  in_memory_store_frame cache e cache' k other h = rw (
    memory-update cache e cache' h,
    find_by_id,
    lookup-insert cache (get_id e) k (increment_version e),
    other,
  )
