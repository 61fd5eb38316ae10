-- ===== src/Tasks/Loops.antt =====
-- A loop that changes the selected rows one by one changes the table like a map.
use kohaku_river.Common.{
  ℕ, ◌≡◌, refl, Bool, true, false, ◌||◌, none, some, [], ◌∷◌, arith, if◌then◌else◌, nat_key,
  string_key, pair_key, keep, contains, Dict, get, put, get-put, Unique, put-Unique, keep-Unique,
  get-keep,
}
use kohaku_river.Tasks.{Task, Tasks}
use kohaku_river.Tasks.Monitor.{save_all}

-- Every row of the list is changed, and no other.
pub get-save_all :
    (change : Task → Task) (items : Dict ℕ Task) (s : Tasks) (id : ℕ)
    → Unique items
    → get id (save_all change items s).tasks
      ≡ elim (get id items) [ none ↦ get id s.tasks | some t ↦ some (change t) ]
unfolding save_all get
get-save_all change [] s id u = refl
get-save_all change ((k, t) ∷ items) s id u = ground (
  arith,
  get-save_all change items (record { tasks = put k (change t) s.tasks; releases = k ∷ s.releases })
      id u.1,
  get-put k id (change t) s.tasks,
)

pub contains-save_all :
    (change : Task → Task) (items : Dict ℕ Task) (s : Tasks) (id : ℕ)
    → contains id (save_all change items s).releases
      ≡ (elim (get id items) [ none ↦ false | some t ↦ true ] || contains id s.releases)
unfolding save_all get contains
contains-save_all change [] s id = refl
contains-save_all change ((k, t) ∷ items) s id = ground (
  arith,
  contains-save_all change items
      (record { tasks = put k (change t) s.tasks; releases = k ∷ s.releases }) id,
)

pub save_all-Unique :
    (change : Task → Task) (items : Dict ℕ Task) (s : Tasks)
    → Unique s.tasks
    → Unique (save_all change items s).tasks
unfolding save_all
save_all-Unique change [] s u = u
save_all-Unique change ((k, t) ∷ items) s u =
    save_all-Unique change items
      (record { tasks = put k (change t) s.tasks; releases = k ∷ s.releases })
      (put-Unique k (change t) s.tasks u)

-- A query and the loop over it: the rows that pass the test are changed.
pub select-save_all :
    (test : Task → Bool) (change : Task → Task) (s : Tasks) (id : ℕ)
    → Unique s.tasks
    → get id (save_all change (keep (λ item. test item.1) s.tasks) s).tasks
      ≡ elim (get id s.tasks) [ none ↦ none | some t ↦ some (if test t then change t else t) ]
select-save_all test change s id u = ground (
  arith,
  get-save_all change (keep (λ item. test item.1) s.tasks) s id
      (keep-Unique (λ item. test item.1) s.tasks u),
  get-keep (λ item. test item.1) id s.tasks u,
)

pub contains-select :
    (test : Task → Bool) (change : Task → Task) (s : Tasks) (id : ℕ)
    → Unique s.tasks
    → contains id (save_all change (keep (λ item. test item.1) s.tasks) s).releases
      ≡ (elim (get id s.tasks) [ none ↦ false | some t ↦ test t ] || contains id s.releases)
contains-select test change s id u = ground (
  arith,
  contains-save_all change (keep (λ item. test item.1) s.tasks) s id,
  get-keep (λ item. test item.1) id s.tasks u,
)
