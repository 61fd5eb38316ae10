-- ===== src/Tasks/Rows.antt =====
-- Loops over the rows of a query that change some of them: each row is left, saved, or saved with
-- its release scheduled.
use kohaku_river.Common.{
  ℕ, ◌≡◌, refl, sym, ◌∙◌, ◌≢◌, inl, inr, Bool, true, false, Option, none, some, [], ◌∷◌, arith,
  if◌then◌else◌, ◌==◌, nat_key, string_key, pair_key, keep, Dict, get, Bool-cases, get-put, Unique,
  put-Unique, keep-Unique, get-keep, false-ne-true, contains, same_refl, ℕ_discrete, ap, subst,
}
use kohaku_river.Tasks.{Task, Tasks, save, schedule_ip_release, is_final}
use kohaku_river.Tasks.Settled.{IsSettled, put-IsSettled}

-- What the loop's body does to a row.
pub data RowChange : Type 0 where
  left_alone : RowChange
  saved : Task → RowChange
  ended : Task → RowChange

abbrev pub apply_change : ℕ → RowChange → Tasks → Tasks
apply_change id left_alone s = s
apply_change id (saved t) s = save id t s
apply_change id (ended t) s = schedule_ip_release id (save id t s)

unfoldable pub change_rows : (ℕ → Task → RowChange) → Dict ℕ Task → Tasks → Tasks
change_rows body [] s = s
change_rows body ((id, t) ∷ rows) s = change_rows body rows (apply_change id (body id t) s)

-- The row after the change.
abbrev pub changed : RowChange → Option Task → Option Task
changed left_alone row = row
changed (saved t) row = some t
changed (ended t) row = some t

get-apply_change :
    (id j : ℕ) (c : RowChange) (s : Tasks)
    → get j (apply_change id c s).tasks
      ≡ (if id == j then changed c (get j s.tasks) else get j s.tasks)
get-apply_change id j left_alone s = ground arith
get-apply_change id j (saved t) s = get-put id j t s.tasks
get-apply_change id j (ended t) s = get-put id j t s.tasks

apply_change-Unique :
    (id : ℕ) (c : RowChange) (s : Tasks) → Unique s.tasks → Unique (apply_change id c s).tasks
apply_change-Unique id left_alone s u = u
apply_change-Unique id (saved t) s u = put-Unique id t s.tasks u
apply_change-Unique id (ended t) s u = put-Unique id t s.tasks u

get-change_rows :
    (body : ℕ → Task → RowChange) (rows : Dict ℕ Task) (s : Tasks) (j : ℕ)
    → Unique rows
    → get j (change_rows body rows s).tasks
      ≡ elim (get j rows) [ none ↦ get j s.tasks | some t ↦ changed (body j t) (get j s.tasks) ]
unfolding change_rows get
get-change_rows body [] s j u = refl
get-change_rows body ((id, t) ∷ rows) s j u = ground (
  arith,
  get-change_rows body rows (apply_change id (body id t) s) j u.1,
  get-apply_change id j (body id t) s,
)

pub change_rows-Unique :
    (body : ℕ → Task → RowChange) (rows : Dict ℕ Task) (s : Tasks)
    → Unique s.tasks
    → Unique (change_rows body rows s).tasks
unfolding change_rows
change_rows-Unique body [] s u = u
change_rows-Unique body ((id, t) ∷ rows) s u =
    change_rows-Unique body rows (apply_change id (body id t) s)
      (apply_change-Unique id (body id t) s u)

-- A query and the loop over it, read at one row.
pub get-select_rows :
    (test : Task → Bool) (body : ℕ → Task → RowChange) (s : Tasks) (id : ℕ)
    → Unique s.tasks
    → get id (change_rows body (keep (λ item. test item.1) s.tasks) s).tasks
      ≡ elim (get id s.tasks) [
        | none ↦ none
        | some t ↦ if test t then changed (body id t) (some t) else some t
      ]
get-select_rows test body s id u = ground (
  arith,
  get-change_rows body (keep (λ item. test item.1) s.tasks) s id
      (keep-Unique (λ item. test item.1) s.tasks u),
  get-keep (λ item. test item.1) id s.tasks u,
)

-- What was handed over for release stays so.
apply_change-keeps_release :
    (id j : ℕ) (c : RowChange) (s : Tasks)
    → contains j s.releases ≡ true
    → contains j (apply_change id c s).releases ≡ true
unfolding contains
apply_change-keeps_release id j left_alone s h = h
apply_change-keeps_release id j (saved t) s h = h
apply_change-keeps_release id j (ended t) s h = ground arith

pub change_rows-keeps_release :
    (body : ℕ → Task → RowChange) (rows : Dict ℕ Task) (s : Tasks) (j : ℕ)
    → contains j s.releases ≡ true
    → contains j (change_rows body rows s).releases ≡ true
unfolding change_rows
change_rows-keeps_release body [] s j h = h
change_rows-keeps_release body ((id, t) ∷ rows) s j h =
    change_rows-keeps_release body rows (apply_change id (body id t) s) j
      (apply_change-keeps_release id j (body id t) s h)

pub apply_change-released :
    (id : ℕ) (c : RowChange) (t : Task) (s : Tasks)
    → c ≡ ended t
    → contains id (apply_change id c s).releases ≡ true
unfolding contains
apply_change-released id c t s e = rw (e) (ground (arith, same_refl id))

-- A row that the loop ends is handed over.
pub change_rows-released :
    (body : ℕ → Task → RowChange) (rows : Dict ℕ Task) (s : Tasks) (j : ℕ) (q t : Task)
    → get j rows ≡ some q
    → body j q ≡ ended t
    → contains j (change_rows body rows s).releases ≡ true
unfolding change_rows get
change_rows-released body [] s j q t h e = cc
change_rows-released body ((id, p) ∷ rows) s j q t h e = elim (ℕ_discrete id j) [
  | yes same ↦
      let p_is_q : p ≡ q = ground arith in
      let over : body id p ≡ ended t = ap (λ k. body k p) same ∙ ap (body j) p_is_q ∙ e in
      change_rows-keeps_release body rows (apply_change id (body id p) s) j (
        subst (λ k. contains k (apply_change id (body id p) s).releases ≡ true) same
          (apply_change-released id (body id p) t s over))
  | no apart ↦ change_rows-released body rows (apply_change id (body id p) s) j q t (ground arith) e
]

-- A saved row is not final; an ended one is, and has its end.
abbrev pub IsOrderly : RowChange → Type 0
IsOrderly left_alone = Unit
IsOrderly (saved t) = is_final t.status ≡ false
IsOrderly (ended t) = (is_final t.status ≡ true) × (t.completed_at ≢ none)

not_final :
    (t : Task) → is_final t.status ≡ false → is_final t.status ≡ true → t.completed_at ≢ none
not_final t g f = absurd (false-ne-true (sym g ∙ f))

pub apply_change-IsSettled :
    (id : ℕ) (c : RowChange) (s : Tasks)
    → IsOrderly c
    → IsSettled s
    → IsSettled (apply_change id c s)
apply_change-IsSettled id left_alone s o v = v
apply_change-IsSettled id (saved t) s o v =
    put-IsSettled id t s s.releases v (not_final t o) (rw (o) refl)
apply_change-IsSettled id (ended t) s o v =
    put-IsSettled id t s (id ∷ s.releases) v (λ f. o.1) (rw (o.0) refl)

-- The rows that pass the test need an orderly change.
pub select_rows-IsSettled :
    (test : Task → Bool) (body : ℕ → Task → RowChange) (rows : Dict ℕ Task) (s : Tasks)
    → ((id : ℕ) (t : Task) → test t ≡ true → IsOrderly (body id t))
    → IsSettled s
    → IsSettled (change_rows body (keep (λ item. test item.1) rows) s)
unfolding change_rows keep
select_rows-IsSettled test body [] s o v = v
select_rows-IsSettled test body ((id, t) ∷ rows) s o v = elim (Bool-cases (test t)) [
  | inl hit ↦ rw (hit) (
      select_rows-IsSettled test body rows (apply_change id (body id t) s) o
        (apply_change-IsSettled id (body id t) s (o id t hit) v))
  | inr miss ↦ rw (miss) (select_rows-IsSettled test body rows s o v)
]
