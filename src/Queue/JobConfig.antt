-- ===== src/Queue/JobConfig.antt =====
-- The configuration that a queued job carries: `snapshotConfig` and `jobConfig` of
-- internal/bitci/controller.go.
use bitci.Prelude.{Option, none, some, if◌then◌else◌, list_eq, nat_eq}
use bitci.Prelude.Dict.{lookup}
use bitci.Prelude.Result.{Result, ok, err, is_ok, ◌>>=◌}
use bitci.Config.{Config, Task}
use bitci.Config.Validate.{validate}
use bitci.Queue.{
  Snapshot, missing, malformed, stored, Job, QueueError, bad_snapshot, unknown_job_task,
}

-- The first argument is the controller's own configuration.
unfoldable pub snapshot_config : Config → Snapshot → Result QueueError Config
snapshot_config own missing = ok own
snapshot_config own malformed = err bad_snapshot
snapshot_config own (stored config) =
    if is_ok (validate config) then ok config else err bad_snapshot

abbrev pub or_unknown_task : Config → Option Task → Result QueueError (Config × Task)
or_unknown_task config none = err unknown_job_task
or_unknown_task config (some task) = ok (config, task)

unfoldable pub job_config : Config → Job → Result QueueError (Config × Task)
job_config own job = snapshot_config own job.config_json >>= λ config.
    or_unknown_task config (lookup job.task config.tasks)
