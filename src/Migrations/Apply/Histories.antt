-- ===== src/Migrations/Apply/Histories.antt =====
-- What a run of the migrations leaves in the bookkeeping table.
use aethergrid.Base.{
  ℕ, ◌+◌, ◌≡◌, refl, sym, ap, ◌∙◌, subst, Bool, true, false, some, ◌≢◌, ◌⊎◌, migration_error, All,
  length-append, append-nil, append_assoc, List, [], ◌∷◌, ◌++◌, map, String, arith, length, Result,
  ok, raise, and_then, Bool-cases, inl, inr,
}
use aethergrid.Migrations.{Migration, Row, Numbered, to_row}
use aethergrid.Migrations.Plan.Versions.{version_of, row_version}
use aethergrid.Migrations.Apply.{
  Connection, rows_of, insert_row, has_version, run_one, apply_pending,
}

insert_last :
    (k : ℕ) (row : Row) (rows : List Row)
    → Numbered row_version k rows
    → row.version ≡ k + length rows
    → (insert_row row rows ≡ rows ++ row ∷ []) × (has_version row.version rows ≡ false)
unfolding insert_row
insert_last k row [] h e = (refl, refl)
insert_last k row (r ∷ rows) h e = ground (arith, insert_last (k + 1) row rows h.1)

Numbered-append :
    (k : ℕ) (row : Row) (rows : List Row)
    → Numbered row_version k rows
    → row.version ≡ k + length rows
    → Numbered row_version k (rows ++ row ∷ [])
Numbered-append k row [] h e = (omega (arith, e), tt)
Numbered-append k row (r ∷ rows) h e =
    (h.0, Numbered-append (k + 1) row rows h.1 (omega (arith, e)))

module _ {S : Type 0} (execute : String → S → Bool × S) where
  -- A migration that is next in line: its row is added and it has run, or no row is added.
  record Steps (m : Migration) (c : Connection S) (good : Bool) (c' : Connection S) : Type 0 where
    added : good ≡ true → c'.table ≡ some (rows_of c.table ++ to_row m ∷ [])
    ran : good ≡ true → c'.schema ≡ (execute m.sql c.schema).1
    kept : good ≡ false → c'.table ≡ c.table
    rolled_back : good ≡ false → m.transactional ≡ true → c'.schema ≡ c.schema
    lock : c'.holds_lock ≡ c.holds_lock

  run_one-Steps :
      (m : Migration) (c : Connection S)
      → Numbered row_version 1 (rows_of c.table)
      → m.version ≡ 1 + length (rows_of c.table)
      → Steps m c (run_one execute m c).0 (run_one execute m c).1
  unfolding run_one
  run_one-Steps m c h e = ground (arith, insert_last 1 (to_row m) (rows_of c.table) h e)

  -- The schema that the migrations make of another.
  abbrev pub schema_after : List Migration → S → S
  schema_after [] s = s
  schema_after (m ∷ ms) s = schema_after ms (execute m.sql s).1

  -- The migrations that were applied, in their order, and those that were not.
  pub record Applied (pending : List Migration) (c : Connection S) (r : Result (List ℕ))
      (c' : Connection S) : Type 0 where
    pub done : List Migration
    pub left : List Migration
    pub parts : pending ≡ done ++ left
    pub rows : rows_of c'.table ≡ rows_of c.table ++ map to_row done
    pub outcome :
        (r ≡ ok (map version_of done)) × (left ≡ []) ⊎ (r ≡ raise migration_error) × (left ≢ [])
    pub schema :
        All (λ (m : Migration). m.transactional ≡ true) pending
        → c'.schema ≡ schema_after done c.schema
    pub lock : c'.holds_lock ≡ c.holds_lock
    pub there : c.table ≡ some (rows_of c.table) → c'.table ≡ some (rows_of c'.table)

  extend :
      (m : Migration) (ms : List Migration) (c c1 c' : Connection S) (r : Result (List ℕ))
      → Steps m c true c1
      → Applied ms c1 r c'
      → Applied (m ∷ ms) c (and_then r (λ versions. ok (m.version ∷ versions))) c'
  extend m ms c c1 c' r step rest = record {
    done = m ∷ rest.done;
    left = rest.left;
    parts = ap (λ l. m ∷ l) rest.parts;
    rows =
        rest.rows
        ∙ (ap (λ t. rows_of t ++ map to_row rest.done) (step.added refl)
            ∙ append_assoc (rows_of c.table) (to_row m ∷ []) (map to_row rest.done));
    outcome = elim rest.outcome [
      | inl (e, n) ↦ inl (rw e refl, n)
      | inr (e, n) ↦ inr (rw e refl, n)
    ];
    schema = λ h. rest.schema h.1 ∙ ap (schema_after rest.done) (step.ran refl);
    lock = rest.lock ∙ step.lock;
    there = λ _. rest.there (step.added refl ∙ ap (λ t. some (rows_of t)) (sym (step.added refl)));
  }

  pub apply_pending-Applied :
      (pending : List Migration) (c : Connection S)
      → Numbered row_version 1 (rows_of c.table)
      → Numbered version_of (1 + length (rows_of c.table)) pending
      → Applied pending c (apply_pending execute pending c).0 (apply_pending execute pending c).1
  unfolding apply_pending
  apply_pending-Applied [] c h k = record {
    done = [];
    left = [];
    parts = refl;
    rows = sym (append-nil (rows_of c.table));
    outcome = inl (refl, refl);
    schema = λ _. refl;
    lock = refl;
    there = λ h. h;
  }
  apply_pending-Applied (m ∷ ms) c h k =
      let step : Steps m c (run_one execute m c).0 (run_one execute m c).1 =
        run_one-Steps m c h k.0 in
      elim (Bool-cases (run_one execute m c).0) [
        | inr e ↦
            rw (apply_pending, e)
              (record {
                done = [];
                left = m ∷ ms;
                parts = refl;
                rows = ap rows_of (step.kept e) ∙ sym (append-nil (rows_of c.table));
                outcome = inr (refl, λ x. cc);
                schema = λ t. step.rolled_back e t.0;
                lock = step.lock;
                there = λ h. step.kept e ∙ (h ∙ ap (λ t. some (rows_of t)) (sym (step.kept e)));
              })
        | inl e ↦
            let c1 : Connection S = (run_one execute m c).1 in
            let rows : rows_of c1.table ≡ rows_of c.table ++ to_row m ∷ [] =
              ap rows_of (step.added e) in
            let numbered : Numbered row_version 1 (rows_of c1.table) =
              rw rows (Numbered-append 1 (to_row m) (rows_of c.table) h k.0) in
            let longer : 1 + length (rows_of c.table) + 1 ≡ 1 + length (rows_of c1.table) =
              omega (arith, ap length rows, length-append (rows_of c.table) (to_row m ∷ [])) in
            let rest : Applied ms c1 (apply_pending execute ms c1).0
                (apply_pending execute ms c1).1 =
              apply_pending-Applied ms c1 numbered
                (subst (λ n. Numbered version_of n ms) longer k.1) in
            rw (apply_pending, e) (extend m ms c c1 _ _ (rw e at step) rest)
      ]
