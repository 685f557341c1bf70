-- ===== src/Tests/Places.antt =====
-- A checkout and a worktree without symbolic links, and what a run and a staging meet there.
use bitci.Prelude.{true, false, none, some, [], ◌∷◌, ◌++◌}
use bitci.Prelude.Text.{Text, codes}
use bitci.Prelude.Int.{pos}
use bitci.Queue.{passed, queued, Job, Host}
use bitci.Paths.{missing, directory, Files}
use bitci.Paths.State.{Places}
use bitci.Paths.Commands.{Roots}
use bitci.Stage.{Site, Checkout}
use bitci.Work.Worktree.{Worktree}
use bitci.Work.Execute.{Process}
use bitci.Work.Once.{Meets}
use bitci.Tests.Sample.{build, test, config, job_of, host}

abbrev pub sha : Text
sha = codes "0123456789abcdef0123456789abcdef01234567"

abbrev pub files : Files
files = record {
  lstat = λ path. missing;
  stat = λ path. missing;
  eval_symlinks = λ path. some path;
  same_file = λ first second. false;
  look_path = λ name. none;
  working_directory = codes "/";
}

abbrev pub places : Places
places = record {
  config_path = codes "/c/bitci.json";
  checkout_root = codes "/c";
  config_relative = codes ".";
  state_dir = codes "/s";
}

abbrev pub roots : Roots
roots = record { checkout = codes "/c"; worktree = codes "/w"; work_dir = codes "/w" }

abbrev pub worktree : Worktree
worktree = record {
  root = directory;
  git_directory = directory;
  metadata = some [];
  owner = some (codes "2\n" ++ sha ++ codes "\n");
  toplevel = some (codes "/s/worktrees/job-2\n");
  common_directory = some (codes "/s/worktrees/job-2/.git\n");
  flags = some [];
  status = some [];
  head = some sha;
}

abbrev pub process : Process
process = record { pid = some 7; recorded = true; exits = some (pos 0); group_stopped = true }

abbrev pub meets : Meets
meets = record {
  log_opens = true;
  header_written = true;
  worktree_written = true;
  tested_written = true;
  log_closes = true;
  staging = record {
    root_made = true;
    present = missing;
    directory_made = true;
    owner_written = true;
    object_format = some (codes "sha1");
    initialized = true;
    objects = some (codes "/s/objects");
    linked = true;
    checked_out = true;
    refs_copied = true;
    head = some sha;
  };
  owner = some (codes "2\n" ++ sha ++ codes "\n");
  files = files;
  prepare = process;
  files_prepared = files;
  worktree_prepared = worktree;
  task = process;
  files_done = files;
  worktree_done = worktree;
  worktree_left = worktree;
  removed = true;
}

abbrev pub commit_job : Job
commit_job = record (job_of 2 test queued) { ref = sha; checkout_root = codes "/c" }

abbrev pub checkout : Checkout (Unit {0})
checkout = record {
  head = λ repo. some sha;
  origin = λ repo. none;
  fetch = λ repo source target. some repo;
  rev_parse = λ repo name. some sha;
  detach = λ repo commit. some repo;
  ls_remote = λ repo ref. none;
  valid_ref = λ ref. true;
  tree = record {
    ls_tree = λ repo tree. none;
    ls_files = λ repo pathspec. none;
    status = λ repo paths. some [];
    clean_ignored = λ repo pathspec. none;
  };
  files = λ repo. files;
  places = places;
  load_config = λ repo. some config;
}

-- No job is queued or running.
abbrev pub idle : Site (Unit {0})
idle = record {
  store = record { jobs = job_of 1 build passed ∷ []; leases = []; batch_refs = [] };
  staged = none;
  config = config;
  repo = tt;
}

abbrev pub placed_host : Host
placed_host = record host { location = some (codes "/c", codes ".") }
