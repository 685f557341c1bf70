-- ===== src/Queue/Recover/Clears.antt =====
-- What the transaction of `RecoverInterrupted` (internal/bitci/controller.go) leaves running.
use bitci.Prelude.{
  ℕ, Bool, true, false, not, ◌&&◌, List, [], ◌∷◌, ◌≡◌, refl, arith, nat_eq, list_eq, ◌∙◌,
}
use bitci.Prelude.Text.{Text}
use bitci.Prelude.Dict.{is_some}
use bitci.Queue.{Job, Lease, Store, Git, Host}
use bitci.Queue.Table.{select, count, find, update, is_running}
use bitci.Queue.Finish.{matching}
use bitci.Queue.Claim.{has_lease}
use bitci.Queue.Recover.{Processes, interrupt_row, interrupt}

count-none :
    (now : ℕ) (xs : List Job)
    → count
        (λ row. is_running row.state)
        (update (λ row. is_running row.state) (interrupt_row now) xs)
      ≡ 0
unfolding count update interrupt_row
count-none now [] = refl
count-none now (x ∷ xs) = ground (arith, count-none now xs)

count-mark :
    (p : Job → Bool) (xs : List Job)
    → count
        (λ row. is_running row.state)
        (update p (λ row. record row { cleanup_pending = true }) xs)
      ≡ count (λ row. is_running row.state) xs
unfolding count update
count-mark p [] = refl
count-mark p (x ∷ xs) = ground (arith, count-mark p xs)

select-holds :
    (p : Lease → Bool) (q : ℕ → Bool) (r : Text) (id : ℕ) (ls : List Lease)
    → ((l : Lease) → p l ≡ q l.job_id)
    → has_lease r id (select p ls) ≡ true
    → q id ≡ true
unfolding has_lease select
select-holds p q r id [] h m = absurd (ground arith)
select-holds p q r id (l ∷ ls) h m = ground (arith, select-holds p q r id ls h, h l)

-- After the transaction of `RecoverInterrupted` no job runs, and no lease is left of a job that ran
-- before.
pub interrupt-clears :
    {Repo : Type 0} (git : Git Repo) (host : Host) (processes : Processes) (interrupted : List Job)
    (now : ℕ) (s : Store) (r : Text) (id : ℕ)
    → (count (λ row. is_running row.state) (interrupt git host processes interrupted now s).jobs
        ≡ 0)
      × ((has_lease r id (interrupt git host processes interrupted now s).leases
            && is_some (find (matching id is_running) s.jobs))
          ≡ false)
unfolding interrupt
interrupt-clears git host processes interrupted now s r id = (
  count-mark _ _ ∙ count-none now _,
  ground (
    arith,
    select-holds (λ l. not (is_some (find (matching l.job_id is_running) s.jobs)))
        (λ j. not (is_some (find (matching j is_running) s.jobs))) r id s.leases (λ l. refl),
  ),
)
