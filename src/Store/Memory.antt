-- ===== src/Store/Memory.antt =====
-- store/memory.go: the store in memory. A Go map is a list of keys and values, and the source goes
-- through it in an order that it leaves open; the model takes that of the list.
use rulehawk.Common.{
  List, [], ◌++◌, ◌∷◌, Option, Bool, if◌then◌else◌, map, some, none, ◌&&◌, true, any, false,
}
use rulehawk.Common.Text.{Text, text_eq}
use rulehawk.Store.{Record, Store}
use rulehawk.Core.{FindingStatus, status_open}

pub record MemTarget : Type 0 where
  pub raw : Text
  pub canonical : Text

pub record MemStore : Type 0 where
  pub recs : List (Text × Record)
  pub targets : List (Text × List MemTarget)

abbrev pub new_mem_store : MemStore
new_mem_store = record { recs = []; targets = [] }

-- `key`
unfoldable pub mem_key : Text → Text → Text
mem_key module_id fingerprint = module_id ++ (0 ∷ fingerprint)

-- `m[k] = v`
unfoldable pub set_entry : {A : Type 0} → List (Text × A) → Text → A → List (Text × A)
set_entry [] k v = (k, v) ∷ []
set_entry (x ∷ xs) k v = if text_eq x.0 k then (k, v) ∷ xs else x ∷ set_entry xs k v

-- `m[k]`
unfoldable pub get_entry : {A : Type 0} → List (Text × A) → Text → Option A
get_entry [] k = none
get_entry (x ∷ xs) k = if text_eq x.0 k then some x.1 else get_entry xs k

-- The records of the map that pass a test.
unfoldable pub records_where : (Record → Bool) → List (Text × Record) → List Record
records_where test [] = []
records_where test (x ∷ xs) =
    let rest = records_where test xs in if test x.1 then x.1 ∷ rest else rest

unfoldable pub list_by_target : MemStore → Text → Text → List Record
list_by_target m module_id target =
    records_where (λ r. text_eq r.finding.module_id module_id && text_eq r.finding.target target)
      m.recs

unfoldable pub upsert : MemStore → Record → MemStore
upsert m r = record m {
  recs = set_entry m.recs (mem_key r.finding.module_id r.finding.fingerprint) r;
}

unfoldable pub get : MemStore → Text → Text → Option Record
get m module_id fingerprint = get_entry m.recs (mem_key module_id fingerprint)

unfoldable pub is_open : FindingStatus → Bool
is_open status_open = true
is_open _ = false

unfoldable pub list_open : MemStore → Text → List Record
list_open m module_id =
    records_where (λ r. text_eq r.finding.module_id module_id && is_open r.finding.status) m.recs

unfoldable pub list_all : MemStore → Text → List Record
list_all m module_id = records_where (λ r. text_eq r.finding.module_id module_id) m.recs

-- `m.targets[module]`, which is empty where the key is missing.
unfoldable pub targets_of : MemStore → Text → List MemTarget
targets_of m module_id = elim (get_entry m.targets module_id) [ none ↦ [] | some ts ↦ ts ]

unfoldable pub save_target : MemStore → Text → Text → Text → MemStore
save_target m module_id raw canonical =
    if any (λ t. text_eq t.canonical canonical) (targets_of m module_id) then m else record m {
      targets =
          set_entry m.targets module_id
            (targets_of m module_id ++ record { raw = raw; canonical = canonical } ∷ []);
    }

-- The targets whose canonical name differs.
unfoldable pub without_target : Text → List MemTarget → List MemTarget
without_target canonical [] = []
without_target canonical (t ∷ ts) =
    let rest = without_target canonical ts in
    if text_eq t.canonical canonical then rest else t ∷ rest

unfoldable pub delete_target : MemStore → Text → Text → MemStore
delete_target m module_id canonical = record m {
  targets = set_entry m.targets module_id (without_target canonical (targets_of m module_id));
}

unfoldable pub list_saved_targets : MemStore → Text → List Text
list_saved_targets m module_id = map (λ t. t.raw) (targets_of m module_id)

-- The engine's view of the store; no operation fails.
abbrev pub mem_ops : Store MemStore
mem_ops = record {
  list_by_target = λ m module_id target. some (list_by_target m module_id target);
  upsert = λ m r. some (upsert m r);
}
