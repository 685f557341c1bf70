-- ===== src/Queue/Invariant.antt =====
-- What holds of the controller's tables between any two changes of internal/bitci/controller.go.
use bitci.Prelude.{
  ℕ, suc, ◌+◌, ◌≤◌, Bool, true, false, ◌&&◌, ◌||◌, some, List, [], ◌∷◌, ◌++◌, ◌≡◌, refl, ap, arith,
  contains, ◌==◌, if◌then◌else◌, nat_eq, list_eq, Bool-cases, inl, inr, ℕ_discrete,
}
use bitci.Prelude.Text.{Text}
use bitci.Prelude.Dict.{is_some}
use bitci.Config.{Config}
use bitci.Queue.{Snapshot, Job, Lease, Store}
use bitci.Queue.Table.{select, count, find, update, is_queued, has_id}
use bitci.Queue.Rows.{
  Revised, count_id-Revised, config_of, config_of-Revised, config_of-append, find-Revised,
  find-append, count-append, config_of-find-none, config_of-find,
}
use bitci.Queue.Edits.{
  load, limit_for, AtMost, Starts, Edit, revises, releases, enqueues, starts, Edits, here, next,
}
use bitci.Queue.Leases.{insert_leases-load, has_lease-select, load-select, AtMost-mono}
use bitci.Queue.Claim.{has_lease, start_row}

pub record Inv (own : Config) (s : Store) : Type 0 where
  -- Job ids are distinct.
  pub ids : (id : ℕ) → count (has_id id) s.jobs ≤ 1
  -- Each lease belongs to a job, and to none that waits.
  pub owned :
      (r : Text) (id : ℕ) → has_lease r id s.leases ≡ true → is_some (config_of id s.jobs) ≡ true
  pub busy :
      (r : Text) (id : ℕ) (job : Job)
      → has_lease r id s.leases ≡ true
      → find (has_id id) s.jobs ≡ some job
      → is_queued job.state ≡ false
  -- No resource has more leases than any holder's configuration allows.
  pub within :
      (r : Text) (id : ℕ)
      → has_lease r id s.leases ≡ true
      → AtMost (load r s.leases) (limit_for own s.jobs r id)

config_of-start :
    (now id j : ℕ) (xs : List Job)
    → config_of j (update (has_id id) (start_row now) xs) ≡ config_of j xs
unfolding config_of update start_row
config_of-start now id j [] = refl
config_of-start now id j (x ∷ xs) = ground (arith, config_of-start now id j xs)

count_id-start :
    (now id j : ℕ) (xs : List Job)
    → count (has_id j) (update (has_id id) (start_row now) xs) ≡ count (has_id j) xs
unfolding count update start_row
count_id-start now id j [] = refl
count_id-start now id j (x ∷ xs) = ground (arith, count_id-start now id j xs)

find-start :
    (now id j : ℕ) (xs : List Job) (y : Job)
    → find (has_id j) (update (has_id id) (start_row now) xs) ≡ some y
    → is_queued y.state ≡ true
    → (find (has_id j) xs ≡ some y) × ((id == j) ≡ false)
unfolding find update start_row
find-start now id j [] y h q = absurd (ground arith)
find-start now id j (x ∷ xs) y h q = ground (arith, find-start now id j xs y)

module _ (own : Config) (s t : Store) (inv : Inv own s) where
  Inv-revises : Revised s.jobs t.jobs → t.leases ≡ s.leases → Inv own t
  Inv-revises h e = record {
    ids = λ id. rw (count_id-Revised id s.jobs t.jobs h) (inv.ids id);
    owned = λ r id m. rw (config_of-Revised id s.jobs t.jobs h) (inv.owned r id (rw e at m));
    busy = λ r id job m f.
        let (x, found, same) = find-Revised id s.jobs t.jobs job h f in
        ground (arith, inv.busy r id x (rw e at m) found, same.move);
    within = λ r id m. rw (e, config_of-Revised id s.jobs t.jobs h) (inv.within r id (rw e at m));
  }

  Inv-releases : (p : Lease → Bool) → t.jobs ≡ s.jobs → t.leases ≡ select p s.leases → Inv own t
  Inv-releases p e f = record {
    ids = λ id. rw e (inv.ids id);
    owned = λ r id m. rw e (inv.owned r id (kept r id m));
    busy = λ r id job m g. inv.busy r id job (kept r id m) (rw e at g);
    within = λ r id m.
        rw (e, f)
          (AtMost-mono (load r (select p s.leases)) (load r s.leases) (limit_for own s.jobs r id)
            (load-select p r s.leases) (inv.within r id (kept r id m)));
  }
    where
      kept : (r : Text) (id : ℕ) → has_lease r id t.leases ≡ true → has_lease r id s.leases ≡ true
      kept r id m = has_lease-select p r id s.leases (rw f at m)

  Inv-enqueues :
      (row : Job)
      → count (has_id row.id) s.jobs ≡ 0
      → t.jobs ≡ s.jobs ++ row ∷ []
      → t.leases ≡ s.leases
      → Inv own t
  unfolding count
  Inv-enqueues row fresh e f = record {
    ids = λ id. rw e (fewer id);
    owned = λ r id m.
        let (c, g) = config r id m in rw (e, config_of-append id s.jobs (row ∷ []) c g) refl;
    busy = λ r id job m g. elim (find-append id s.jobs row job (rw e at g)) [
      | inl old ↦ inv.busy r id job (rw f at m) old
      | inr (missing, _, _) ↦
          absurd (ground (arith, config_of-find-none id s.jobs missing, inv.owned r id (rw f at m)))
    ];
    within = λ r id m.
        let (c, g) = config r id m in
        rw (e, f, config_of-append id s.jobs (row ∷ []) c g)
          (rw g at (inv.within r id (rw f at m)));
  }
    where
      fewer : (id : ℕ) → count (has_id id) (s.jobs ++ row ∷ []) ≤ 1
      fewer id = rw (count-append (has_id id) s.jobs (row ∷ [])) (elim (ℕ_discrete row.id id) [
        | yes p ↦ ground (arith, fresh, ap (λ k. count (has_id k) s.jobs) p)
        | no n ↦ ground (arith, inv.ids id)
      ])

      config :
          (r : Text) (id : ℕ)
          → has_lease r id t.leases ≡ true
          → (c : Snapshot) × (config_of id s.jobs ≡ some c)
      config r id m = ground (arith, inv.owned r id (rw f at m))

  Inv-Starts : Starts own s t → Inv own t
  Inv-Starts st = record {
    ids = λ id. rw (st.started, count_id-start st.now st.row.id id s.jobs) (inv.ids id);
    owned = λ r id m. rw (st.started, config_of-start st.now st.row.id id s.jobs) (had r id m);
    busy = λ r id job m g. elim (Bool-cases (is_queued job.state)) [
      | inl q ↦
          let (old, other) = find-start st.now st.row.id id s.jobs job (rw st.started at g) q in
          absurd (ground (arith, held r id, inv.busy r id job, other, m))
      | inr n ↦ n
    ];
    within = λ r id m. rw (st.started, config_of-start st.now st.row.id id s.jobs) (limited r id m);
  }
    where
      held :
          (r : Text) (id : ℕ)
          → has_lease r id t.leases
            ≡ (has_lease r id s.leases || (contains st.resources r && st.row.id == id))
      held r id =
          (insert_leases-load st.row.id st.resources s.leases t.leases st.distinct st.taken r).1 id

      loaded :
          (r : Text)
          → load r t.leases ≡ load r s.leases + (if contains st.resources r then 1 else 0)
      loaded r =
          (insert_leases-load st.row.id st.resources s.leases t.leases st.distinct st.taken r).0

      had :
          (r : Text) (id : ℕ)
          → has_lease r id t.leases ≡ true
          → is_some (config_of id s.jobs) ≡ true
      had r id m = elim (ℕ_discrete st.row.id id) [
        | yes p ↦ rw (← p, config_of-find st.row.id s.jobs st.row st.found) refl
        | no n ↦ inv.owned r id (ground (arith, held r id))
      ]

      limited :
          (r : Text) (id : ℕ)
          → has_lease r id t.leases ≡ true
          → AtMost (load r t.leases) (limit_for own s.jobs r id)
      limited r id m = elim (Bool-cases (contains st.resources r)) [
        | inl c ↦
            let more : load r t.leases ≡ suc (load r s.leases) = ground (arith, loaded r) in
            rw more (elim (Bool-cases (has_lease r id s.leases)) [
              | inl old ↦ st.fits r c id old
              | inr new ↦
                  let same : st.row.id ≡ id = ground (arith, held r id) in
                  rw (← same) (st.own_limit r c)
            ])
        | inr c ↦
            let equal : load r t.leases ≡ load r s.leases = ground (arith, loaded r) in
            rw equal (inv.within r id (ground (arith, held r id)))
      ]

pub Edit-Inv : (own : Config) (s t : Store) → Edit own s t → Inv own s → Inv own t
Edit-Inv own s t (revises h e) inv = Inv-revises own s t inv h e
Edit-Inv own s t (releases p e f) inv = Inv-releases own s t inv p e f
Edit-Inv own s t (enqueues row fresh q e f) inv = Inv-enqueues own s t inv row fresh e f
Edit-Inv own s t (starts st) inv = Inv-Starts own s t inv st

-- Every sequence of changes keeps the invariant.
pub Edits-Inv : (own : Config) (s : Store) {t : Store} → Edits own s t → Inv own s → Inv own t
Edits-Inv own s here inv = inv
Edits-Inv own s (next {t = t} {u = u} es e) inv = Edit-Inv own t u e (Edits-Inv own s es inv)
