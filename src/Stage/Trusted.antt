-- ===== src/Stage/Trusted.antt =====
-- What `stageTrustedRef` of internal/bitci/stage.go leaves behind, whether it succeeds or fails.
use bitci.Prelude.{
  ℕ, Bool, true, none, some, List, ◌≡◌, refl, arith, nat_eq, list_eq, Bool-cases, Option-cases, inl,
  inr, ◌⊎◌,
}
use bitci.Prelude.Text.{Text}
use bitci.Prelude.Strings.{is_empty, to_lower, equal_fold}
use bitci.Prelude.Result.{Result, ok, err}
use bitci.Sha.{is_checkout_sha}
use bitci.Sha.Laws.{is_checkout_sha-to_lower, to_lower_idem}
use bitci.Stage.{
  StagedCheckout, Site, Checkout, StageError, checkout_sha, staged_checkout_sha, active_count,
  record_staged,
}
use bitci.Stage.Run.{
  is_trusted, fetch_trusted, adopt, restore, or_restore, move_to, stage_trusted_ref,
}
use bitci.Stage.After.{
  After, After-bind, After-done, After-map, require-then, ask-then, change-then, clear_staged-then,
  set_config-then,
}

module _ {Repo : Type 0} where
  -- A failed call may have moved the checkout; it has kept the tables and the configuration, and
  -- what is staged is what was staged before or nothing.
  pub record IsLeft (s t : Site Repo) : Type 0 where
    pub store : t.store ≡ s.store
    pub config : t.config ≡ s.config
    pub staged : (t.staged ≡ s.staged) ⊎ (t.staged ≡ none)

  -- The tables are kept and nothing is staged.
  pub record IsUnstaged (s t : Site Repo) : Type 0 where
    pub store : t.store ≡ s.store
    pub staged : t.staged ≡ none

  record_staged-After :
      {P : Site Repo → Unit {0} → Type 0} {E : Site Repo → Type 0} (ref : Text) (n : ℕ) (sha : Text)
      (s : Site Repo)
      → ((row : StagedCheckout)
          → staged_checkout_sha (some row) ≡ ok (to_lower sha)
          → P (record s { staged = some row }) tt)
      → E s
      → After P E (record_staged ref n sha s)
  unfolding record_staged staged_checkout_sha
  record_staged-After {P} {E} ref n sha s h k = elim (Bool-cases (is_checkout_sha sha)) [
    | inr bad ↦ rw (bad) (record { holds = k })
    | inl good ↦ elim (Bool-cases (is_empty ref)) [
      | inl unnamed ↦ rw (good, unnamed) (record { holds = k })
      | inr named ↦
          let kept : staged_checkout_sha
                (some (record { pull_request = n; source_ref = ref; sha = to_lower sha }))
              ≡ ok (to_lower sha) =
            ground (arith, is_checkout_sha-to_lower sha, to_lower_idem sha) in
          rw (good, named) (record { holds = h _ kept })
    ]
  ]

module _ {Repo : Type 0} (git : Checkout Repo) where
  -- The site after a commit was adopted.
  pub record IsAdopted (s t : Site Repo) (fetched sha : Text) : Type 0 where
    pub store : t.store ≡ s.store
    pub head : checkout_sha git t.repo ≡ some sha
    pub same : equal_fold sha fetched ≡ true
    pub config : git.load_config t.repo ≡ some t.config
    pub staged : staged_checkout_sha t.staged ≡ ok (to_lower sha)

  adopt-After :
      (ref : Text) (n : ℕ) (fetched : Text) (s : Site Repo)
      → s.staged ≡ none
      → After (λ t sha. IsAdopted s t fetched sha) (IsUnstaged s) (adopt git ref n fetched s)
  unfolding adopt
  adopt-After ref n fetched s free =
      let left : IsUnstaged s s = record { store = refl; staged = free } in
      ask-then _ _ _ left λ sha head. require-then _ _ left λ same.
        ask-then _ _ _ left λ config loaded. set_config-then _ _ _ (
          After-bind _ _ _ (
            record_staged-After ref n sha _
              (λ row staged. After-done sha _ (record {
                store = refl;
                head = head;
                same = same;
                config = loaded;
                staged = staged;
              }))
              (record { store = refl; staged = free })))

  fetch_trusted-After :
      (ref stage_ref expected repository : Text) (s : Site Repo)
      → After
          (λ t fetched.
            IsUnstaged s t × (t.config ≡ s.config) × (is_trusted fetched expected ≡ true))
          (IsLeft s)
          (fetch_trusted git ref stage_ref expected repository s)
  unfolding fetch_trusted
  fetch_trusted-After ref stage_ref expected repository s = clear_staged-then _ _ (
      change-then _ _ _ (left _) λ r cleaned. ask-then _ _ _ (left _) λ clean e1.
        require-then _ _ (left _) λ e2. change-then _ _ _ (left _) λ r2 e3.
          ask-then _ _ _ (left _) λ found e4. require-then _ _ (left _) λ trusted.
            ask-then _ _ _ (left _) λ conflict e6.
              require-then _ _ (left _)
                λ e7. After-done _ _ (record { store = refl; staged = refl }, refl, trusted))
    where
      left : (r : Repo) → IsLeft s (record s { staged = none; repo = r })
      left r = record { store = refl; config = refl; staged = inr refl }

  or_restore-After :
      {P : Site Repo → Text → Type 0} (original : Text) (s : Site Repo)
      (r : Site Repo × Result (List StageError) Text)
      → After P (IsUnstaged s) r
      → After P (IsLeft s) (or_restore git original s.config r)
  unfolding or_restore restore
  or_restore-After original s (t, ok sha) h = record { holds = h.holds }
  or_restore-After original s (t, err errors) h = elim (Option-cases (git.detach t.repo original)) [
    | inl stuck ↦
        rw (or_restore, restore, stuck)
          (record {
            holds = record { store = h.holds.store; config = refl; staged = inr h.holds.staged };
          })
    | inr (r, moved) ↦
        rw (or_restore, restore, moved)
          (record {
            holds = record { store = h.holds.store; config = refl; staged = inr h.holds.staged };
          })
  ]

  -- The site after a call that succeeded.
  pub record IsStaged (s t : Site Repo) (expected sha : Text) : Type 0 where
    pub idle : active_count s.store ≡ 0
    pub store : t.store ≡ s.store
    pub head : checkout_sha git t.repo ≡ some sha
    pub trusted : is_empty expected ≡ true ⊎ equal_fold sha expected ≡ true
    pub config : git.load_config t.repo ≡ some t.config
    pub staged : staged_checkout_sha t.staged ≡ ok (to_lower sha)

  same_as :
      (fetched expected sha : Text)
      → is_trusted fetched expected ≡ true
      → equal_fold sha fetched ≡ true
      → is_empty expected ≡ true ⊎ equal_fold sha expected ≡ true
  unfolding equal_fold
  same_as fetched expected sha trusted same = ground arith

  move_to-After :
      (ref : Text) (n : ℕ) (original fetched expected : Text) (s t : Site Repo)
      → IsUnstaged s t
      → t.config ≡ s.config
      → is_trusted fetched expected ≡ true
      → active_count s.store ≡ 0
      → After
          (λ u sha. IsStaged s u expected sha)
          (IsLeft s)
          (move_to git ref n original s.config fetched t)
  unfolding move_to
  move_to-After ref n original fetched expected s t h same trusted idle =
      elim (Option-cases (git.detach t.repo fetched)) [
        | inl stuck ↦
            rw (move_to, stuck)
              (record { holds = record { store = h.store; config = same; staged = inr h.staged } })
        | inr (r, moved) ↦
            rw (move_to, moved)
              (or_restore-After original s _ (
                After-map _
                  (λ u sha a. record {
                    idle = idle;
                    store = ground (arith, a.store, h.store);
                    head = a.head;
                    trusted = same_as fetched expected sha trusted a.same;
                    config = a.config;
                    staged = a.staged;
                  })
                  (λ u a. record { store = ground (arith, a.store, h.store); staged = a.staged })
                  (adopt-After ref n fetched _ h.staged)))
      ]

module _ {Repo : Type 0} (git : Checkout Repo) (locked : Bool) (configured : Text) where
  -- `stageTrustedRef`.
  pub stage_trusted_ref-After :
      (n : ℕ) (ref stage_ref expected repository : Text) (s : Site Repo)
      → After
          (λ t sha. IsStaged git s t expected sha × (locked ≡ true))
          (IsLeft s)
          (stage_trusted_ref git locked configured n ref stage_ref expected repository s)
  unfolding stage_trusted_ref
  stage_trusted_ref-After n ref stage_ref expected repository s = require-then _ _ left λ held.
      require-then _ _ left λ idle. ask-then _ _ _ left λ origin e1. require-then _ _ left λ e2.
        ask-then _ _ _ left λ original e3. After-bind _ _ _ (
          After-map _
            (λ t fetched (h, c, trusted).
              After-map _ (λ u sha a. (a, held)) (λ u a. a)
                (move_to-After git ref n original fetched expected s t h c trusted (ground arith)))
            (λ t h. h) (fetch_trusted-After git ref stage_ref expected repository s))
    where
      left : IsLeft s s
      left = record { store = refl; config = refl; staged = inl refl }
