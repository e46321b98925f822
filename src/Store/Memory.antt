-- ===== src/Store/Memory.antt =====
-- InMemoryEntityStore (common/memorystore/memorystore.go). The entities' methods and the JSON round trip
-- of copyEntity depend on the entity type: parameters.
pub mod Laws
use cfm.Prelude.{
  ℕ, String, Bool, Option, none, some, List, [], ◌∷◌, Map, lookup, insert, delete, has, keep,
  length, if◌then◌else◌, str_eq,
}
use cfm.Errors.{Error, wrapped, Result, ok, err, err_not_found, err_conflict, err_invalid_input}
use cfm.Store.{EntityStore, LockMode}

module _ {Entity : Type 0} (get_id : Entity → String) (increment_version : Entity → Entity)
    (copy_entity : Entity → Result Entity) where
  unfoldable pub find_by_id : Map Entity → String → Result Entity
  find_by_id cache id = elim (lookup cache id) [
    | none ↦ err err_not_found
    | some entity ↦ elim (copy_entity entity) [ err e ↦ err e | ok copied ↦ ok copied ]
  ]

  unfoldable pub find_by_id_and_lock : Map Entity → String → LockMode → Result Entity
  unfolding find_by_id
  find_by_id_and_lock cache id mode = find_by_id cache id

  abbrev pub store_copy : Map Entity → Entity → Result Entity → Map Entity × Result Entity
  store_copy cache entity (err e) = (cache, err e)
  store_copy cache entity (ok copied) = (insert cache (get_id copied) copied, ok entity)

  unfoldable pub create : Map Entity → Entity → Map Entity × Result Entity
  create cache entity =
      if str_eq (get_id entity) ""
      then (cache, err err_invalid_input)
      else if has cache (get_id entity)
      then (cache, err err_conflict)
      else store_copy cache entity (copy_entity entity)

  abbrev pub replace_by_copy : Map Entity → Result Entity → Map Entity × Option Error
  replace_by_copy cache (err e) = (cache, some (wrapped "error copying entity" e))
  replace_by_copy cache (ok copied) = (insert cache (get_id copied) copied, none)

  unfoldable pub update : Map Entity → Entity → Map Entity × Option Error
  update cache entity =
      let next = increment_version entity in
      if str_eq (get_id entity) ""
      then (cache, some err_invalid_input)
      else if has cache (get_id next)
      then replace_by_copy cache (copy_entity next)
      else (cache, some err_not_found)

  unfoldable pub remove : Map Entity → String → Map Entity × Option Error
  remove cache id =
      if str_eq id ""
      then (cache, some err_invalid_input)
      else if has cache id
      then (delete cache id, none)
      else (cache, some err_not_found)

  -- FindByPredicate: a copy that fails ends the sequence.
  unfoldable pub copies : List Entity → List Entity
  copies [] = []
  copies (entity ∷ rest) =
      let more = copies rest in elim (copy_entity entity) [ err _ ↦ [] | ok c ↦ c ∷ more ]

  abbrev pub values : Map Entity → List Entity
  values [] = []
  values ((k, entity) ∷ cache) = entity ∷ values cache

  unfoldable pub find_by_predicate : Map Entity → (Entity → Bool) → List Entity
  unfolding copies
  find_by_predicate cache predicate = copies (keep predicate (values cache))

  unfoldable pub count_by_predicate : Map Entity → (Entity → Bool) → ℕ
  count_by_predicate cache predicate = length (keep predicate (values cache))

  -- The store as the services see it.
  abbrev pub in_memory_store : EntityStore (Map Entity) Entity
  in_memory_store = record {
    find_by_id = find_by_id;
    find_by_id_and_lock = find_by_id_and_lock;
    create = create;
    update = update;
    delete = remove;
    get_all = λ cache. ok (copies (values cache));
    find_by_predicate = λ cache predicate. ok (find_by_predicate cache predicate);
    count_by_predicate = λ cache predicate. ok (count_by_predicate cache predicate);
  }
