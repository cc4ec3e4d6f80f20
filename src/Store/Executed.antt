-- ===== src/Store/Executed.antt =====
-- `ExecutionStateStore` of state/store.py: which slots have run.
use Prim.Native.Nat.{Ordering}
use Prim.Native.String.{compare}
use fox_runner_server.Prelude.{
  ℕ, String, ◌≡◌, refl, Option, none, some, Bool, true, false, not, ◌&&◌, ◌||◌, List, [], ◌∷◌,
  get_or, split_once, str_eq, eq_iff, arith, if◌then◌else◌,
}
use fox_runner_server.Prelude.Dict.{Dict, get, put, pop, has, get-put, get-pop}

pub record SlotRunRecord : Type 0 where
  pub slot_key : String
  pub executed_at : ℕ

-- The file: absent, not readable as JSON, or an object with or without `executed_slots`.
pub data SlotFile : Type 0 where
  missing unreadable : SlotFile
  contents : Option (Dict SlotRunRecord) → SlotFile

unfoldable pub load : SlotFile → Option (Dict SlotRunRecord)
load missing = some []
load unreadable = some []
load (contents slots) = slots

-- `data.get("executed_slots", {})`
unfoldable pub slots_of : SlotFile → Dict SlotRunRecord
unfolding load
slots_of file = get_or (load file) []

unfoldable pub has_executed : SlotFile → String → Bool
unfolding slots_of has
has_executed file slot_key = has (slots_of file) slot_key

-- `key.split("|", 1)[0]`
unfoldable pub date_part : String → String
date_part key = elim (split_once b'|' key) [ none ↦ key | some (date, _) ↦ date ]

-- `a < b` between texts
unfoldable pub before : String → String → Bool
before a b = elim (compare a b) [ Ordering.lt ↦ true | _ ↦ false ]

unfoldable pub stale_keys : String → Dict SlotRunRecord → List String
stale_keys threshold [] = []
stale_keys threshold ((key, r) ∷ slots) =
    let rest = stale_keys threshold slots in
    if before (date_part key) threshold then key ∷ rest else rest

unfoldable pub pop_all : Dict SlotRunRecord → List String → Dict SlotRunRecord
pop_all slots [] = slots
pop_all slots (key ∷ keys) = pop_all (pop slots key) keys

-- `_prune_old_entries`; `threshold` is the date of today in UTC
unfoldable pub prune_old_entries : String → Dict SlotRunRecord → Dict SlotRunRecord
prune_old_entries threshold slots = pop_all slots (stale_keys threshold slots)

unfoldable pub mark_executed : String → SlotFile → String → ℕ → SlotFile
mark_executed today file slot_key executed_at = contents (
    some (
      prune_old_entries today
        (put (slots_of file) slot_key (record { slot_key = slot_key; executed_at = executed_at }))))

mentions : List String → String → Bool
mentions [] key = false
mentions (k ∷ ks) key = str_eq k key || mentions ks key

get-pop_all :
    (slots : Dict SlotRunRecord) (keys : List String) (j : String)
    → get (pop_all slots keys) j ≡ (if mentions keys j then none else get slots j)
unfolding pop_all mentions
get-pop_all slots [] j = refl
get-pop_all slots (k ∷ ks) j = simp (get-pop_all (pop slots k) ks j, get-pop) (ground arith)

mentions-stale_keys :
    (threshold : String) (slots : Dict SlotRunRecord) (j : String)
    → mentions (stale_keys threshold slots) j ≡ (has slots j && before (date_part j) threshold)
unfolding stale_keys mentions has get
mentions-stale_keys threshold [] j = refl
mentions-stale_keys threshold ((k, r) ∷ slots) j =
    ground (arith, mentions-stale_keys threshold slots j, eq_iff k j)

has-prune_old_entries :
    (threshold : String) (slots : Dict SlotRunRecord) (j : String)
    → has (prune_old_entries threshold slots) j
      ≡ (has slots j && not (before (date_part j) threshold))
unfolding prune_old_entries has
has-prune_old_entries threshold slots j =
    ground (
      arith,
      get-pop_all slots (stale_keys threshold slots) j,
      mentions-stale_keys threshold slots j,
    )

has-put :
    (slots : Dict SlotRunRecord) (k j : String) (r : SlotRunRecord)
    → has (put slots k r) j ≡ (str_eq k j || has slots j)
unfolding has
has-put slots k j r = ground (arith, get-put slots k j r)

-- After a slot has been marked, exactly these count as executed: that slot and those that counted
-- before, less every one whose date lies before today's date in UTC.
pub has_executed-mark_executed :
    (today : String) (file : SlotFile) (slot_key : String) (executed_at : ℕ) (j : String)
    → has_executed (mark_executed today file slot_key executed_at) j
      ≡ ((str_eq slot_key j || has_executed file j) && not (before (date_part j) today))
unfolding has_executed mark_executed slots_of
has_executed-mark_executed today file slot_key executed_at j =
    rw
      (
        has-prune_old_entries today
            (put (slots_of file) slot_key
              (record { slot_key = slot_key; executed_at = executed_at }))
            j,
        has-put (slots_of file) slot_key j
            (record { slot_key = slot_key; executed_at = executed_at }),
      )
      refl

-- A slot whose local date lies before today's date in UTC does not count as executed after it has
-- been marked, whatever the file held.
pub mark_executed-forgets :
    (today : String) (file : SlotFile) (slot_key : String) (executed_at : ℕ)
    → before (date_part slot_key) today ≡ true
    → has_executed (mark_executed today file slot_key executed_at) slot_key ≡ false
mark_executed-forgets today file slot_key executed_at earlier =
    ground (arith, has_executed-mark_executed today file slot_key executed_at slot_key)
