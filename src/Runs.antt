-- ===== src/Runs.antt =====
-- internal/review/surface/mcp/runs.go: the registry of a process's runs, by id, by idempotency key and by
-- source run. Each operation is taken as one
-- step. The mutex of the registry makes it so for all but the end of a run: `finish` of a record takes
-- a lock of its own, so a state may change while another call holds the registry.
-- A record is known by its id, which the server makes up anew for each run. What a finished run returns
-- is not modelled, since the registry does not look at it.
pub mod Pruned
pub mod Evicted
pub mod Kept
pub mod Trimmed
pub mod Released
pub mod Admitted
pub mod Finished
pub mod Reached
use aimesh.Base.{
  ℕ, suc, ◌-◌, ◌+◌, String, Bool, true, false, not, ◌&&◌, List, [], ◌∷◌, ◌++◌, Option, none, some,
  ltb, ◌==◌, String_comparable, if◌then◌else◌,
}
use aimesh.Base.Maps.{put, lookup, remove}

pub data RunState : Type 0 where
  running complete halted cancelled : RunState

abbrev pub is_running : RunState → Bool
is_running running = true
is_running _ = false

pub record RunRecord : Type 0 where
  pub id : String
  pub tool : String
  pub mode : String
  pub key : String
  pub source_run_id : String
  pub start : ℕ
  pub end : ℕ
  pub state : RunState

-- `evicted` are the ids that `onEvict` was called with.
pub record Registry : Type 0 where
  pub by_id : List (String × RunRecord)
  pub by_key : List (String × String)
  pub by_source : List (String × String)
  pub order : List String
  pub active : ℕ
  pub started : ℕ
  pub evicted : List String

abbrev pub retain_finished : ℕ
retain_finished = 50

-- An hour in nanoseconds.
abbrev pub finished_ttl : ℕ
finished_ttl = 3600000000000

abbrev pub new_registry : Registry
new_registry = record {
  by_id = [];
  by_key = [];
  by_source = [];
  order = [];
  active = 0;
  started = 0;
  evicted = [];
}

-- `rg.get`
abbrev pub get : Registry → String → Option RunRecord
get rg id = lookup id rg.by_id

-- The record that an index of the registry leads to.
abbrev pub led_to : Registry → Option String → Option RunRecord
led_to rg none = none
led_to rg (some id) = get rg id

-- `existing`
unfoldable pub existing : Registry → String → Option RunRecord
existing rg key = if key == "" then none else led_to rg (lookup key rg.by_key)

-- `existingForSource`
unfoldable pub existing_for_source : Registry → String → Option RunRecord
existing_for_source rg source =
    if source == "" then none else led_to rg (lookup source rg.by_source)

-- What a caller asks to run.
pub record Request : Type 0 where
  pub id : String
  pub tool : String
  pub mode : String
  pub key : String
  pub source_run_id : String

-- The record of a run that starts at a time.
abbrev pub started_at : ℕ → Request → RunRecord
started_at now q = record {
  id = q.id;
  tool = q.tool;
  mode = q.mode;
  key = q.key;
  source_run_id = q.source_run_id;
  start = now;
  end = 0;
  state = running;
}

-- `if k != "" { m[k] = id }`
abbrev pub index_by : String → String → List (String × String) → List (String × String)
index_by k id m = if k == "" then m else put k id m

-- `admitLocked`
unfoldable pub admit : ℕ → Request → Registry → Registry
admit now q rg = record rg {
  by_id = put q.id (started_at now q) rg.by_id;
  order = rg.order ++ (q.id ∷ []);
  by_key = index_by q.key q.id rg.by_key;
  by_source = index_by q.source_run_id q.id rg.by_source;
  active = suc rg.active;
  started = suc rg.started;
}

-- The result of `reserve`: a record that was there before, or the registry with the new run.
pub data Reservation : Type 0 where
  prior : RunRecord → Reservation
  admitted : Registry → Reservation

unfoldable pub reserve : ℕ → Request → Registry → Reservation
unfolding existing existing_for_source
reserve now q rg = elim (existing rg q.key) [
  | some p ↦ prior p
  | none ↦ elim (existing_for_source rg q.source_run_id) [
    | some p ↦ prior p
    | none ↦ admitted (admit now q rg)
  ]
]

-- `record.finish` on the record of a run that the registry holds.
unfoldable pub finish : String → RunState → ℕ → Registry → Registry
finish id state now rg = elim (get rg id) [
  | none ↦ rg
  | some r ↦ record rg { by_id = put id (record r { state = state; end = now }) rg.by_id }
]

-- `if k != "" && m[k] == id { delete(m, k) }`
abbrev pub is_for : Option String → String → Bool
is_for none id = false
is_for (some i) id = i == id

abbrev pub unindex : String → String → List (String × String) → List (String × String)
unindex k id m = if not (k == "") && is_for (lookup k m) id then remove k m else m

-- `dropLocked`
unfoldable pub drop : RunRecord → Registry → Registry
drop r rg = record rg {
  by_id = remove r.id rg.by_id;
  by_key = unindex r.key r.id rg.by_key;
  by_source = unindex r.source_run_id r.id rg.by_source;
  evicted = rg.evicted ++ (r.id ∷ []);
}

-- `state != StateRunning && now.Sub(rec.End) > finishedTTL`
abbrev pub is_stale : ℕ → RunRecord → Bool
is_stale now r = not (is_running r.state) && ltb (r.end + finished_ttl) now

-- A registry beside the order that a loop has kept.
abbrev pub Pruning : Type 0
Pruning = List String × Registry

abbrev pub keep_id : String → Pruning → Pruning
keep_id id (ids, rg) = (id ∷ ids, rg)

-- The first loop of `evictLocked`.
unfoldable pub sweep : ℕ → List String → Registry → Pruning
sweep now [] rg = ([], rg)
sweep now (id ∷ ids) rg = elim (get rg id) [
  | none ↦ sweep now ids rg
  | some r ↦ elim (is_stale now r) [
    | true ↦ sweep now ids (drop r rg)
    | false ↦ keep_id id (sweep now ids rg)
  ]
]

-- The second loop: how many of the runs are finished.
unfoldable pub count_finished : List String → Registry → ℕ
count_finished [] rg = 0
count_finished (id ∷ ids) rg =
    let rest = count_finished ids rg in
    elim (get rg id) [ none ↦ rest | some r ↦ if is_running r.state then rest else suc rest ]

-- The third loop: the oldest finished runs go until few enough are left.
unfoldable pub trim : List String → ℕ → Registry → Pruning
trim [] finished rg = ([], rg)
trim (id ∷ ids) finished rg = elim (ltb retain_finished finished) [
  | false ↦ (id ∷ ids, rg)
  | true ↦ elim (get rg id) [
    | none ↦ keep_id id (trim ids finished rg)
    | some r ↦ elim (is_running r.state) [
      | true ↦ keep_id id (trim ids finished rg)
      | false ↦ trim ids (finished - 1) (drop r rg)
    ]
  ]
]

abbrev pub in_order : Pruning → Registry
in_order (ids, rg) = record rg { order = ids }

-- `evictLocked`
unfoldable pub evict : ℕ → Registry → Registry
unfolding sweep count_finished trim
evict now rg =
    let swept = in_order (sweep now rg.order rg) in
    in_order (trim swept.order (count_finished swept.order swept) swept)

-- `release`
unfoldable pub release : ℕ → Registry → Registry
unfolding evict
release now rg = evict now (record rg { active = rg.active - 1 })

-- `cancelAll`, over the entries of `byID` in the order in which Go meets them: the runs that it cancels.
unfoldable pub cancel_all : List (String × RunRecord) → List String
cancel_all [] = []
cancel_all (e ∷ es) = let rest = cancel_all es in if is_running e.1.state then e.0 ∷ rest else rest

-- `counts`
abbrev pub counts : Registry → ℕ × ℕ
counts rg = (rg.active, rg.started)
