-- ===== src/Config/Order/Visit.antt =====
-- The depth-first search of `ordered` (internal/bitci/config.go): what each nested call of `visit`
-- leaves behind, by induction on the fuel.
use bitci.Prelude.{
  ℕ, zero, suc, ◌<◌, true, false, Option, none, some, List, [], ◌∷◌, ◌≡◌, refl, ◌⊎◌, inl, inr,
  arith, contains, ◌==◌, ◌||◌, list_eq, nat_eq, Bool-cases,
}
use bitci.Prelude.Text.{Text}
use bitci.Prelude.Dict.{Dict, lookup}
use bitci.Prelude.Result.{Result, ok, err, ◌>>=◌}
use bitci.Config.{Task, ConfigError, dependency_cycle, unknown_task}
use bitci.Config.Order.{Search, unmark, visit_all, enter, leave, visit_task, visit}
use bitci.Config.Order.Relations.{
  Distinct, contains-append, Distinct-snoc, Needs, NeedPath, Chain, Chain-NeedPath, IsOrdered,
  IsOrdered-snoc, remaining, remaining-lt,
}

module _ (tasks : Dict Text Task) (roots : List Text) where
  -- Between two calls: `ordered` holds what `seen` holds, once and in order.
  pub record Valid (s : Search) : Type 0 where
    pub same : (x : Text) → contains s.seen x ≡ contains s.ordered x
    pub apart : (x : Text) → contains s.seen x ≡ true → contains s.visiting x ≡ false
    pub distinct : Distinct s.ordered
    pub sorted : IsOrdered tasks [] s.ordered

  -- A name that was asked for, or that a configured task needs.
  abbrev pub Wanted : Text → Type 0
  Wanted x = (contains roots x ≡ true) ⊎ ((y : Text) × Needs tasks y x)

  pub record Enabled (fuel : ℕ) (x : Text) (s : Search) : Type 0 where
    pub valid : Valid s
    pub fuelled : remaining s.visiting tasks < fuel
    pub chain : Chain tasks x s.visiting
    pub wanted : Wanted x

  -- From `s` to `s'` the given names were visited.
  pub record Visits (names : List Text) (s s' : Search) : Type 0 where
    pub valid : Valid s'
    pub visiting : s'.visiting ≡ s.visiting
    pub keeps : (x : Text) → contains s.seen x ≡ true → contains s'.seen x ≡ true
    pub all : (x : Text) → contains names x ≡ true → contains s'.seen x ≡ true

  -- Each error has its reason, and the fuel does not run out.
  abbrev pub Explains : ConfigError → Type 0
  Explains (unknown_task x) = (lookup x tasks ≡ none) × Wanted x
  Explains (dependency_cycle x) = NeedPath tasks x x
  Explains _ = ⊥

  abbrev pub Ensures {ℓ} : {A : Type ℓ} → (A → Type 0) → Result ConfigError A → Type 0
  Ensures P (ok a) = P a
  Ensures P (err e) = Explains e

  pub Ensures-bind {ℓ κ} :
      {A : Type ℓ} {B : Type κ} (P : A → Type 0) (Q : B → Type 0) (m : Result ConfigError A)
      (f : A → Result ConfigError B)
      → Ensures P m
      → ((a : A) → P a → Ensures Q (f a))
      → Ensures Q (m >>= f)
  Ensures-bind P Q (ok a) f p h = h a p
  Ensures-bind P Q (err e) f p h = p

  Visits-trans :
      (n : Text) (ns : List Text) (s t u : Search)
      → Visits (n ∷ []) s t
      → Visits ns t u
      → Visits (n ∷ ns) s u
  Visits-trans n ns s t u a b = record {
    valid = b.valid;
    visiting = cc (a.visiting, b.visiting);
    keeps = λ x h. b.keeps x (a.keeps x h);
    all = λ x h. ground (arith, a.all x, b.keeps x, b.all x);
  }

  visit_all-Visits :
      (v : Text → Search → Result ConfigError Search) (fuel : ℕ)
      → ((n : Text) (s : Search) → Enabled fuel n s → Ensures (Visits (n ∷ []) s) (v n s))
      → (ns : List Text) (s : Search) → Valid s
      → remaining s.visiting tasks < fuel
      → ((n : Text) → contains ns n ≡ true → Chain tasks n s.visiting × Wanted n)
      → Ensures (Visits ns s) (visit_all v ns s)
  unfolding visit_all
  visit_all-Visits v fuel h [] s valid fuelled want = record {
    valid = valid;
    visiting = refl;
    keeps = λ x m. m;
    all = λ x m. absurd (ground arith);
  }
  visit_all-Visits v fuel h (n ∷ ns) s valid fuelled want =
      Ensures-bind (Visits (n ∷ []) s) (Visits (n ∷ ns) s) (v n s) (λ s'. visit_all v ns s') first
        (λ t a. Ensures-map t a (
          visit_all-Visits v fuel h ns t a.valid (rw a.visiting fuelled)
            (λ x m. rw a.visiting (want x (ground arith)))))
    where
      first : Ensures (Visits (n ∷ []) s) (v n s)
      first = h n s (record {
        valid = valid;
        fuelled = fuelled;
        chain = (want n (ground arith)).0;
        wanted = (want n (ground arith)).1;
      })

      Ensures-map :
          (t : Search)
          → Visits (n ∷ []) s t
          → Ensures (Visits ns t) (visit_all v ns t)
          → Ensures (Visits (n ∷ ns) s) (visit_all v ns t)
      Ensures-map t a = go (visit_all v ns t)
        where
          go :
              (r : Result ConfigError Search)
              → Ensures (Visits ns t) r
              → Ensures (Visits (n ∷ ns) s) r
          go (ok u) b = Visits-trans n ns s t u a b
          go (err e) b = b

  unmark-absent : (n : Text) (vs : List Text) → contains vs n ≡ false → unmark n vs ≡ vs
  unfolding unmark
  unmark-absent n [] h = refl
  unmark-absent n (v ∷ vs) h = ground (arith, unmark-absent n vs)

  unmark-cons : (n : Text) (vs : List Text) → contains vs n ≡ false → unmark n (n ∷ vs) ≡ vs
  unfolding unmark
  unmark-cons n vs h = ground (arith, unmark-absent n vs h)

  -- After the needs of a fresh name, the name itself is done.
  leave-Visits :
      (name : Text) (task : Task) (s t : Search)
      → lookup name tasks ≡ some task
      → contains s.seen name ≡ false
      → contains s.visiting name ≡ false
      → Visits task.needs (enter name s) t
      → Visits (name ∷ []) s (leave name t)
  unfolding leave
  leave-Visits name task s t found fresh apart v = record {
    valid = record {
      same = λ x. ground (arith, v.valid.same x, contains-append t.ordered (name ∷ []) x);
      apart = λ x h. rw restored (ground (arith, v.valid.apart x, marked x));
      distinct =
          Distinct-snoc t.ordered name v.valid.distinct
            (ground (arith, v.valid.same name, v.valid.apart name, marked name));
      sorted = IsOrdered-snoc tasks [] t.ordered name v.valid.sorted (
        task,
        found,
        λ n h. ground (arith, v.all n h, v.valid.same n, contains-append t.ordered [] n),
      );
    };
    visiting = restored;
    keeps = λ x h. ground (arith, v.keeps x h);
    all = λ x h. ground arith;
  }
    where
      restored : unmark name t.visiting ≡ s.visiting
      restored = rw v.visiting (unmark-cons name s.visiting apart)

      marked : (x : Text) → contains t.visiting x ≡ (x == name || contains s.visiting x)
      marked x = rw v.visiting

  visit_task-Visits :
      (v : Text → Search → Result ConfigError Search) (fuel : ℕ)
      → ((n : Text) (s : Search) → Enabled fuel n s → Ensures (Visits (n ∷ []) s) (v n s))
      → (name : Text) (s : Search) (o : Option Task) → lookup name tasks ≡ o
      → Enabled (suc fuel) name s
      → contains s.seen name ≡ false
      → contains s.visiting name ≡ false
      → Ensures (Visits (name ∷ []) s) (visit_task v name s o)
  unfolding visit_task
  visit_task-Visits v fuel h name s none e en fresh apart = (e, en.wanted)
  visit_task-Visits v fuel h name s (some task) e en fresh apart =
      Ensures-bind (Visits task.needs (enter name s)) (Visits (name ∷ []) s)
        (visit_all v task.needs (enter name s)) (λ t. ok (leave name t))
        (visit_all-Visits v fuel h task.needs (enter name s) entered fewer
          (λ n m. (((task, e, m), en.chain), inr (name, (task, e, m)))))
        (λ t a. leave-Visits name task s t e fresh apart a)
    where
      entered : Valid (enter name s)
      entered = record {
        same = en.valid.same;
        apart = λ x m. ground (arith, en.valid.apart x m);
        distinct = en.valid.distinct;
        sorted = en.valid.sorted;
      }

      fewer : remaining (name ∷ s.visiting) tasks < fuel
      fewer = omega (arith, en.fuelled, remaining-lt name s.visiting tasks task e apart)

  pub visit-Visits :
      (fuel : ℕ) (name : Text) (s : Search)
      → Enabled fuel name s
      → Ensures (Visits (name ∷ []) s) (visit tasks fuel name s)
  unfolding visit
  visit-Visits zero name s en = absurd (omega (arith, en.fuelled))
  visit-Visits (suc fuel) name s en = elim (Bool-cases (contains s.seen name)) [
    | inl done ↦
        rw done (record {
          valid = en.valid;
          visiting = refl;
          keeps = λ x m. m;
          all = λ x m. ground arith;
        })
    | inr fresh ↦ rw fresh (elim (Bool-cases (contains s.visiting name)) [
      | inl busy ↦ rw busy (Chain-NeedPath tasks name s.visiting name en.chain busy)
      | inr apart ↦ rw apart (
          visit_task-Visits (visit tasks fuel) fuel (visit-Visits fuel) name s (lookup name tasks)
            refl en fresh apart)
    ])
  ]

  -- The search over the requested names.
  pub visit_all-Ensures :
      (fuel : ℕ) (s : Search)
      → Valid s
      → s.visiting ≡ []
      → remaining s.visiting tasks < fuel
      → Ensures (Visits roots s) (visit_all (visit tasks fuel) roots s)
  visit_all-Ensures fuel s valid idle fuelled =
      visit_all-Visits (visit tasks fuel) fuel (visit-Visits fuel) roots s valid fuelled
        (λ n m. (rw idle tt, inl m))
