-- ===== src/Tests/Pages.antt =====
-- Tests of the dashboard.
use bitci.Prelude.{
  if◌then◌else◌, true, none, some, List, [], ◌∷◌, map, ◌≡◌, refl, length, ◌==◌, nat_eq, list_eq,
}
use bitci.Prelude.Text.{codes}
use bitci.Prelude.Int.{pos, int_eq}
use bitci.Prelude.Result.{ok}
use bitci.Config.Order.{sort_strings, insert_name, text_leb}
use bitci.Sha.{is_checkout_sha}
use bitci.Queue.{queued, running, passed, failed, cancelled, missing, Store, Host}
use bitci.Queue.Table.{count, find, select, update}
use bitci.Queue.Rows.{config_of}
use bitci.Queue.JobConfig.{snapshot_config, job_config}
use bitci.Queue.Edits.{load, AtMost}
use bitci.Queue.Claim.{
  has_lease, limit_of, claim_context, end_claim, scan_rows, consider, disk_ok, ready,
  resources_free, held_and_limit, take_job, start_job, pin_claimed_job, insert_leases, start_row,
}
use bitci.Queue.Reach.{Call, claims, run, run_all}
use bitci.Dashboard.{
  bump, count_of, tally, state_eq, leases_in_use, dashboard_job, is_recent_pass, average, since,
  state_counts, DashboardPage, ResourceUsage, dashboard_data, resource_usage, usage_of,
}
use bitci.Dashboard.Usage.{resource_usage-bounded, resource_usage-rows}
use bitci.Prelude.Dict.{lookup, is_some}
use bitci.Dashboard.Counts.{dashboard_data-counts, counts_by, in_state, numbered}
use bitci.Tests.Sample.{config, config_valid, store, git, host, world, store_Inv}

abbrev page : DashboardPage
page = record {
  jobs = map (dashboard_job config 9) store.jobs;
  counts = (queued, 1) ∷ (running, 0) ∷ (passed, 1) ∷ (failed, 0) ∷ (cancelled, 0) ∷ [];
  passed_last_week = 0;
  average_passed = none;
  disk_free = 7;
  disk_guard = 0;
  resources = record { name = codes "d"; in_use = 0; limit = pos 1 } ∷ [];
}

page_lem : dashboard_data config store 9 (some 7) ≡ some page
unfolding dashboard_data state_counts tally bump count_of state_eq count is_recent_pass since
    average select resource_usage usage_of leases_in_use nat_eq list_eq sort_strings insert_name
page_lem = refl

dashboard_data-counts_example :
    (page.counts ≡ counts_by (λ s. in_state s store.jobs))
    × (numbered page.counts ≡ length page.jobs)
dashboard_data-counts_example = dashboard_data-counts config store 9 (some 7) page page_lem

abbrev row : ResourceUsage
row = record { name = codes "d"; in_use = 1; limit = pos 1 }

abbrev claim : List (Host × Call)
claim = (host, claims (pos 1)) ∷ []

abbrev after : Store
after = (run_all git config world claim).store

-- The second job runs, and its lease is on the page.
leased :
    (find (λ u. u.name == codes "d") (resource_usage config after) ≡ some row)
    × (has_lease (codes "d") 2 after.leases ≡ true)
    × (config_of 2 after.jobs ≡ some missing)
unfolding run_all run claim_context find resource_usage sort_strings insert_name text_leb list_eq
    usage_of nat_eq count_of tally bump leases_in_use count end_claim scan_rows select job_config
    snapshot_config consider disk_ok ready resources_free held_and_limit take_job is_checkout_sha
    start_job pin_claimed_job insert_leases start_row update has_lease config_of
leased = (refl, refl, refl)

own_snapshot : snapshot_config config missing ≡ ok config
unfolding snapshot_config
own_snapshot = refl

resource_usage-bounded_example : AtMost row.in_use (some row.limit)
unfolding list_eq nat_eq
resource_usage-bounded_example =
    resource_usage-bounded git config config_valid world claim (codes "d") row 2 missing config
      store_Inv leased.0 leased.1 leased.2 own_snapshot refl

resource_usage-rows_example : find (λ u. u.name == codes "d") (resource_usage config after) ≡ (
    if is_some (lookup (codes "d") config.resources)
    then some (record {
      name = codes "d";
      in_use = load (codes "d") after.leases;
      limit = limit_of config (codes "d");
    })
    else none)
resource_usage-rows_example = resource_usage-rows config after (codes "d")
