-- ===== src/Tests/Sample.antt =====
-- A configuration of two tasks, the second of which needs the first and takes a resource, a database
-- in which the first has passed, and a host.
use bitci.Prelude.{
  ℕ, ◌≤◌, true, false, none, some, List, [], ◌∷◌, ◌≡◌, refl, arith, nat_eq, list_eq,
}
use bitci.Prelude.Text.{Text, codes}
use bitci.Prelude.Int.{pos, int_eq}
use bitci.Prelude.Result.{ok}
use bitci.Config.{Config, Task}
use bitci.Config.Order.{
  ordered, visit, visit_task, visit_all, leave, unmark, sort_strings, insert_name, text_leb,
  task_names,
}
use bitci.Config.Validate.{
  validate, check_order, check_task, check_resources, check_need, check_variable, check_limit,
  check_redact,
}
use bitci.Queue.{State, queued, passed, Job, Store, Git, Host, World, missing}
use bitci.Queue.Table.{count, has_id}
use bitci.Queue.Claim.{has_lease}
use bitci.Queue.Invariant.{Inv}

abbrev pub build : Text
build = codes "b"

abbrev pub test : Text
test = codes "t"

abbrev pub task_of : List Text → List Text → Task
task_of needs resources = record {
  run = codes "go" ∷ [];
  env = [];
  needs = needs;
  resources = resources;
  paths = [];
  timeout = pos 0;
  max_retries = pos 1;
}

abbrev pub config : Config
config = record {
  version = pos 1;
  resources = (codes "d", pos 1) ∷ [];
  min_free_bytes = 0;
  prepare = [];
  log_retention = pos 0;
  redact = [];
  tasks = (test, task_of (build ∷ []) (codes "d" ∷ [])) ∷ (build, task_of [] []) ∷ [];
}

pub config_valid : validate config ≡ ok tt
unfolding validate check_order check_task check_resources check_need check_variable check_limit
    check_redact ordered visit visit_task visit_all leave unmark sort_strings insert_name text_leb
    task_names nat_eq list_eq int_eq
config_valid = refl

abbrev pub job_of : ℕ → Text → State → Job
job_of id task state = record {
  id = id;
  batch = codes "x";
  task = task;
  submitted_ref = [];
  ref = [];
  tested_sha = [];
  state = state;
  created_at = 0;
  started_at = none;
  finished_at = none;
  exit_code = none;
  log_path = [];
  config_json = missing;
  checkout_root = [];
  config_relative = [];
  cleanup_pending = false;
  attempt = 1;
  retry_of = none;
  retry_root = some id;
  prior_exit_code = none;
  queue_wait_seconds = 0;
  duration_seconds = 0;
  terminal_result = none;
  worker_pid = none;
}

abbrev pub jobs : List Job
jobs = job_of 1 build passed ∷ job_of 2 test queued ∷ []

abbrev pub store : Store
store = record { jobs = jobs; leases = []; batch_refs = [] }

abbrev pub git : Git (Unit {0})
git = record {
  rev_parse = λ repo root name. none;
  update_ref = λ repo root name value. some repo;
  delete_ref = λ repo root name. some repo;
  is_repository = λ repo root. true;
  has_commit = λ repo root value. true;
}

abbrev pub host : Host
host = record {
  locked = true;
  location = none;
  free_bytes = some 0;
  now = 5000000000;
  commits = true;
}

abbrev pub world : World (Unit {0})
world = record { store = store; repo = tt }

count_two : (id : ℕ) → count (has_id id) jobs ≤ 1
unfolding count
count_two id = ground arith

no_lease : (r : Text) (id : ℕ) → has_lease r id [] ≡ false
unfolding has_lease
no_lease r id = refl

pub store_Inv : Inv config store
store_Inv = record {
  ids = count_two;
  owned = λ r id m. absurd (ground (arith, no_lease r id));
  busy = λ r id job m f. absurd (ground (arith, no_lease r id));
  within = λ r id m. absurd (ground (arith, no_lease r id));
}
