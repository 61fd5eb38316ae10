-- ===== src/Nodes/Usage.antt =====
-- src/kohakuriver/host/services/node_manager.py, `get_all_nodes_status`: the display sums up the cores in
-- one query for all nodes. What is left out of a node's status is copied from its row.
use kohaku_river.Common.{
  ℕ, ◌+◌, ◌≡◌, refl, ap, ◌∙◌, ◌≢◌, inl, inr, Bool, true, false, not, ◌&&◌, Option, none, some, List,
  [], ◌∷◌, arith, String, if◌then◌else◌, ◌==◌, nat_key, string_key, pair_key, keep, contains, Dict,
  get, put, Bool-cases, Option-cases, eq_of_same, get-put,
}
use kohaku_river.Common.{Unique, Item, Item-get}
use kohaku_river.Common.Int.{ℤ, pos, sub_ℕ}
use kohaku_river.Tasks.{Task}
use kohaku_river.Tasks.Monitor.{Node, is_on}
use kohaku_river.Nodes.{uses, total_of, or_zero, get_node_available_cores}

abbrev pub online_hostnames : Dict String Node → List String
online_hostnames [] = []
online_hostnames ((hostname, node) ∷ nodes) =
    if node.status == "online" then hostname ∷ online_hostnames nodes else online_hostnames nodes

-- The query's test.
abbrev pub is_counted : List String → Task → Bool
is_counted hostnames task =
    contains task.status ("running" ∷ "assigning" ∷ [])
    && elim task.assigned_node [ none ↦ false | some hostname ↦ contains hostname hostnames ]

-- `GROUP BY assigned_node` with `SUM(required_cores)`.
unfoldable pub group_cores : Dict ℕ Task → Dict String ℕ
unfolding get put
group_cores [] = []
group_cores ((id, task) ∷ rows) =
    let groups = group_cores rows in
    elim task.assigned_node [
      | none ↦ groups
      | some hostname ↦ put hostname (task.required_cores + or_zero (get hostname groups)) groups
    ]

-- `_calculate_cores_in_use`: a row without a host name is skipped.
unfoldable pub calculate_cores_in_use : Dict ℕ Task → Dict String Node → Dict String ℕ
unfolding group_cores keep
calculate_cores_in_use tasks nodes =
    let hostnames = online_hostnames nodes in
    elim hostnames [
      | [] ↦ []
      | hostname ∷ rest ↦
          keep (λ usage. not (usage.0 == ""))
            (group_cores (keep (λ item. is_counted (hostname ∷ rest) item.1) tasks))
    ]

pub record NodeStatus : Type 0 where
  pub hostname : String
  pub total_cores : ℕ
  -- `none` is "N/A".
  pub cores_in_use : Option ℕ
  pub available_cores : ℤ
  pub status : String

abbrev pub build_node_status : String → Node → Dict String ℕ → NodeStatus
build_node_status hostname node cores_in_use =
    let used = or_zero (get hostname cores_in_use) in
    let is_online = node.status == "online" in
    record {
      hostname = hostname;
      total_cores = node.total_cores;
      cores_in_use = if is_online then some used else none;
      available_cores = if is_online then sub_ℕ node.total_cores used else pos 0;
      status = node.status;
    }

abbrev pub build_all : Dict String Node → Dict String ℕ → List NodeStatus
build_all [] cores_in_use = []
build_all ((hostname, node) ∷ nodes) cores_in_use =
    build_node_status hostname node cores_in_use ∷ build_all nodes cores_in_use

unfoldable pub get_all_nodes_status : Dict ℕ Task → Dict String Node → List NodeStatus
unfolding calculate_cores_in_use
get_all_nodes_status tasks nodes = build_all nodes (calculate_cores_in_use tasks nodes)

-- One group holds the sum over the tasks of its node.
group_cores-total :
    (rows : Dict ℕ Task) (hostname : String)
    → or_zero (get hostname (group_cores rows))
      ≡ total_of (λ task. task.required_cores) (keep (λ item. is_on hostname item.1) rows)
unfolding group_cores total_of keep get
group_cores-total [] hostname = refl
group_cores-total ((id, task) ∷ rows) hostname = elim (Option-cases task.assigned_node) [
  | inl nowhere ↦ ground (arith, group_cores-total rows hostname)
  | inr (node, on) ↦ ground (
    arith,
    group_cores-total rows hostname,
    get-put node hostname (task.required_cores + or_zero (get node (group_cores rows)))
        (group_cores rows),
    string_key.is_same_iff node hostname,
  )
]

-- Two selections one after the other.
keep-keep :
    (p q r : ℕ × Task → Bool) (rows : Dict ℕ Task)
    → ((item : ℕ × Task) → (p item && q item) ≡ r item)
    → keep q (keep p rows) ≡ keep r rows
unfolding keep
keep-keep p q r [] same = refl
keep-keep p q r (item ∷ rows) same = ground (arith, keep-keep p q r rows same, same item)

counted-uses :
    (hostname : String) (hostnames : List String) (t : Task)
    → contains hostname hostnames ≡ true
    → (is_counted hostnames t && is_on hostname t) ≡ uses hostname t
counted-uses hostname hostnames t h = elim (Option-cases t.assigned_node) [
  | inl nowhere ↦ ground arith
  | inr (node, on) ↦ ground (arith, string_key.is_same_iff node hostname)
]

online-contains :
    (nodes : Dict String Node) (hostname : String) (node : Node)
    → Unique nodes
    → get hostname nodes ≡ some node
    → node.status ≡ "online"
    → contains hostname (online_hostnames nodes) ≡ true
unfolding get contains
online-contains [] hostname node u h o = cc
online-contains ((k, m) ∷ nodes) hostname node u h o = ground (
  arith,
  online-contains nodes hostname node u.1,
  string_key.is_same_iff k hostname,
  string_key.is_same_iff m.status "online",
)

get-named :
    (d : Dict String ℕ) (hostname : String)
    → hostname ≢ ""
    → get hostname (keep (λ usage. not (usage.0 == "")) d) ≡ get hostname d
unfolding keep get
get-named [] hostname h = refl
get-named ((k, n) ∷ d) hostname h =
    ground (
      arith,
      get-named d hostname h,
      string_key.is_same_iff k "",
      string_key.is_same_iff k hostname,
    )

-- What one node uses, in a query of its own.
abbrev pub cores_used_on : Dict ℕ Task → String → ℕ
cores_used_on tasks hostname =
    total_of (λ task. task.required_cores) (keep (λ item. uses hostname item.1) tasks)

grouped-used :
    (tasks : Dict ℕ Task) (hostnames : List String) (hostname : String)
    → contains hostname hostnames ≡ true
    → hostname ≢ ""
    → or_zero (
        get hostname (
          keep
            (λ usage. not (usage.0 == ""))
            (group_cores (keep (λ item. is_counted hostnames item.1) tasks))))
      ≡ cores_used_on tasks hostname
grouped-used tasks hostnames hostname h ne =
    let rows = keep (λ item. is_counted hostnames item.1) tasks in
    ap or_zero (get-named (group_cores rows) hostname ne)
    ∙ group_cores-total rows hostname
    ∙ ap (total_of (λ task. task.required_cores)) (
        keep-keep (λ item. is_counted hostnames item.1) (λ item. is_on hostname item.1)
          (λ item. uses hostname item.1) tasks (λ item. counted-uses hostname hostnames item.1 h))

contains-none : (hostname : String) → ¬ (contains hostname [] ≡ true)
unfolding contains
contains-none hostname h = cc

calculate_cores_in_use-used :
    (tasks : Dict ℕ Task) (nodes : Dict String Node) (hostname : String)
    → contains hostname (online_hostnames nodes) ≡ true
    → hostname ≢ ""
    → or_zero (get hostname (calculate_cores_in_use tasks nodes)) ≡ cores_used_on tasks hostname
unfolding calculate_cores_in_use
calculate_cores_in_use-used tasks nodes hostname h ne = cases (online_hostnames nodes) h
  where
    cases :
        (hostnames : List String)
        → contains hostname hostnames ≡ true
        → or_zero (
            get hostname (elim hostnames [
              | [] ↦ []
              | k ∷ rest ↦
                  keep
                    (λ usage. not (usage.0 == ""))
                    (group_cores (keep (λ item. is_counted (k ∷ rest) item.1) tasks))
            ]))
          ≡ cores_used_on tasks hostname
    cases [] c = absurd (contains-none hostname c)
    cases (k ∷ rest) c = grouped-used tasks (k ∷ rest) hostname c ne

-- The status from the node's own queries.
abbrev pub status_alone : Dict ℕ Task → String → Node → NodeStatus
status_alone tasks hostname node =
    let is_online = node.status == "online" in
    record {
      hostname = hostname;
      total_cores = node.total_cores;
      cores_in_use = if is_online then some (cores_used_on tasks hostname) else none;
      available_cores = if is_online then get_node_available_cores tasks hostname node else pos 0;
      status = node.status;
    }

abbrev pub statuses_alone : Dict ℕ Task → Dict String Node → List NodeStatus
statuses_alone tasks [] = []
statuses_alone tasks ((hostname, node) ∷ nodes) =
    status_alone tasks hostname node ∷ statuses_alone tasks nodes

build_node_status-alone :
    (tasks : Dict ℕ Task) (hostname : String) (node : Node) (cores : Dict String ℕ)
    → (node.status ≡ "online" → or_zero (get hostname cores) ≡ cores_used_on tasks hostname)
    → build_node_status hostname node cores ≡ status_alone tasks hostname node
unfolding get_node_available_cores
build_node_status-alone tasks hostname node cores h = elim (Bool-cases (node.status == "online")) [
  | inl on ↦ rw (on, h (eq_of_same node.status "online" on)) refl
  | inr off ↦ rw (off) refl
]

build_all-alone :
    (tasks : Dict ℕ Task) (cores : Dict String ℕ) (nodes : Dict String Node)
    → ((k : String) (m : Node)
        → Item k m nodes
        → m.status ≡ "online"
        → or_zero (get k cores) ≡ cores_used_on tasks k)
    → build_all nodes cores ≡ statuses_alone tasks nodes
build_all-alone tasks cores [] h = refl
build_all-alone tasks cores ((k, m) ∷ nodes) h =
    rw
      (
        build_node_status-alone tasks k m cores (h k m (inl (refl, refl))),
        build_all-alone tasks cores nodes (λ k' m' i. h k' m' (inr i)),
      )
      refl

-- The display shows for each node what queries of its own would show, if every node has one row and
-- no host name is empty.
pub get_all_nodes_status-alone :
    (tasks : Dict ℕ Task) (nodes : Dict String Node)
    → Unique nodes
    → get "" nodes ≡ none
    → get_all_nodes_status tasks nodes ≡ statuses_alone tasks nodes
unfolding get_all_nodes_status
get_all_nodes_status-alone tasks nodes u named =
    build_all-alone tasks (calculate_cores_in_use tasks nodes) nodes (λ k m i on.
      let found = Item-get k m nodes u i in
      calculate_cores_in_use-used tasks nodes k (online-contains nodes k m u found on)
        (λ e. ground (arith, e, found, named)))
