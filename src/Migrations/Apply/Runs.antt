-- ===== src/Migrations/Apply/Runs.antt =====
-- A run of the migrations on a database, and the run after it.
use aethergrid.Base.{
  ℕ, zero, suc, ◌+◌, ◌≡◌, ◌≢◌, ◌⊎◌, refl, sym, ap, ◌∙◌, subst, Bool, some, List, [], ◌∷◌, ◌++◌,
  append-nil, map, String, arith, length, drop, Result, Error, ok, raise, Result-cases, inl, inr,
}
use aethergrid.Migrations.{Migration, Row, MigrationPlan, Numbered, to_row}
use aethergrid.Migrations.Plan.{plan_migrations}
use aethergrid.Migrations.Plan.Versions.{version_of, row_version, Agrees}
use aethergrid.Migrations.Plan.Agreement.{IsPlanned, plan_migrations_iff}
use aethergrid.Migrations.Apply.{
  Connection, rows_of, create_table, apply_pending, apply, check_schema,
}
use aethergrid.Migrations.Apply.Histories.{Applied, apply_pending-Applied}

-- A history that has been brought up to the set.
abbrev caught_up : List Row → List Migration → List Row
caught_up rows ms = rows ++ map to_row (drop (length rows) ms)

record IsUpToDate (k : ℕ) (rows : List Row) (ms : List Migration) : Type 0 where
  numbered : Numbered row_version k rows
  agrees : Agrees rows ms
  rest : drop (length rows) ms ≡ []

from_nothing :
    (k : ℕ) (ms : List Migration) → Numbered version_of k ms → IsUpToDate k (map to_row ms) ms
from_nothing k [] h = record { numbered = tt; agrees = tt; rest = refl }
from_nothing k (m ∷ ms) h =
    let r : IsUpToDate (k + 1) (map to_row ms) ms = from_nothing (k + 1) ms h.1 in
    record { numbered = (h.0, r.numbered); agrees = (refl, r.agrees); rest = r.rest }

caught_up-IsUpToDate :
    (k : ℕ) (rows : List Row) (ms : List Migration)
    → Numbered row_version k rows
    → Numbered version_of k ms
    → Agrees rows ms
    → IsUpToDate k (caught_up rows ms) ms
caught_up-IsUpToDate k [] ms h n a = from_nothing k ms n
caught_up-IsUpToDate k (r ∷ rs) [] h n a =
    rw (append-nil rs) (record { numbered = h; agrees = tt; rest = refl })
caught_up-IsUpToDate k (r ∷ rs) (m ∷ ms) h n a =
    let i : IsUpToDate (k + 1) (caught_up rs ms) ms =
      caught_up-IsUpToDate (k + 1) rs ms h.1 n.1 a.1 in
    record { numbered = (h.0, i.numbered); agrees = (a.0, i.agrees); rest = i.rest }

empty-cases : (ms : List Migration) → (ms ≡ []) ⊎ (ms ≢ [])
empty-cases [] = inl refl
empty-cases (m ∷ ms) = inr (λ e. cc)

Numbered-drop :
    (k n : ℕ) (ms : List Migration)
    → Numbered version_of k ms
    → Numbered version_of (k + n) (drop n ms)
Numbered-drop k zero ms h = subst (λ j. Numbered version_of j ms) (omega arith) h
Numbered-drop k (suc n) [] h = tt
Numbered-drop k (suc n) (m ∷ ms) h =
    subst (λ j. Numbered version_of j (drop n ms)) (omega arith) (Numbered-drop (k + 1) n ms h.1)

module _ {S : Type 0} (execute : String → S → Bool × S) (ms : List Migration)
    (h : Numbered version_of 1 ms) where
  -- A run that refused the history, or one that applied what was pending as far as it succeeded.
  abbrev pub Runs : Connection S → Result (List ℕ) × Connection S → Type 0
  Runs c (r, c') =
      (((plan : MigrationPlan) → ¬ IsPlanned ms h (rows_of c.table) plan)
        × ((x : Error) × (r ≡ raise x))
        × (c' ≡ create_table execute c))
      ⊎ ((plan : MigrationPlan) × IsPlanned ms h (rows_of c.table) plan
          × Applied execute (drop (length (rows_of c.table)) ms) (create_table execute c) r c')

  -- A run either refuses the history, because no plan fits it, and applies nothing, or it applies the
  -- pending migrations in their order up to the first that fails: each that was applied has its row and
  -- no other has, and where all are transactional the schema is what those that were applied make of it.
  -- A history ahead of the set fits a plan, with nothing pending.
  pub apply-Runs : (c : Connection S) → Runs c (apply execute ms c)
  unfolding apply
  apply-Runs c = elim (Result-cases (plan_migrations (rows_of c.table) ms)) [
    | inr (x, e) ↦
        rw (apply, e)
          (inl ((λ plan p. absurd (refuse (rows_of c.table) x plan e p)), (x, refl), refl))
    | inl (plan, e) ↦
        let p : IsPlanned ms h (rows_of c.table) plan =
          (plan_migrations_iff ms h (rows_of c.table) plan).0 e in
        rw (apply, e, p.pending)
          (inr (
            plan,
            p,
            apply_pending-Applied execute (drop (length (rows_of c.table)) ms)
                (create_table execute c) p.history
                (Numbered-drop 1 (length (rows_of c.table)) ms h),
          ))
  ]
    where
      refuse :
          (rows : List Row) (x : Error) (plan : MigrationPlan)
          → plan_migrations rows ms ≡ raise x
          → ¬ IsPlanned ms h rows plan
      refuse rows x plan e p = cc (e, (plan_migrations_iff ms h rows plan).1 p)

  -- A database on which a run has succeeded.
  record IsSettled (c : Connection S) : Type 0 where
    up : IsUpToDate 1 (rows_of c.table) ms
    carries : (rows_of c.table ≡ []) ⊎ (ms ≢ [])

  settled :
      (c c' : Connection S) (versions : List ℕ) (plan : MigrationPlan)
      → IsPlanned ms h (rows_of c.table) plan
      → Applied execute
          (drop (length (rows_of c.table)) ms)
          (create_table execute c)
          (ok versions)
          c'
      → IsSettled c'
  settled c c' versions plan p a =
      let none_left : a.left ≡ [] = elim a.outcome [ inl (_, n) ↦ n | inr (x, _) ↦ cc ] in
      let all_done : drop (length (rows_of c.table)) ms ≡ a.done =
        a.parts ∙ (ap (λ l. a.done ++ l) none_left ∙ append-nil a.done) in
      let rows : caught_up (rows_of c.table) ms ≡ rows_of c'.table =
        ap (λ l. rows_of c.table ++ map to_row l) all_done ∙ sym a.rows in
      record {
        up =
            subst (λ r. IsUpToDate 1 r ms) rows
              (caught_up-IsUpToDate 1 (rows_of c.table) ms p.history h p.agrees);
        carries = elim (empty-cases ms) [
          | inr full ↦ inr full
          | inl empty ↦ elim p.carries [
            | inr full ↦ inr full
            | inl fresh ↦ inl (sym rows ∙ rw (fresh, empty) refl)
          ]
        ];
      }

  again :
      (c : Connection S)
      → IsSettled c
      → c.table ≡ some (rows_of c.table)
      → (apply execute ms c ≡ (ok [], c))
        × ((ahead : List ℕ) × (check_schema c.table ms ≡ ok ahead))
  unfolding apply check_schema
  again c s there =
      let plan : MigrationPlan = record {
        pending = [];
        ahead = map row_version (drop (length ms) (rows_of c.table));
      } in
      let planned : plan_migrations (rows_of c.table) ms ≡ ok plan =
        (plan_migrations_iff ms h (rows_of c.table) plan).1 (record {
          history = s.up.numbered;
          carries = s.carries;
          agrees = s.up.agrees;
          pending = sym s.up.rest;
          ahead = refl;
        }) in
      (
        rw (apply, planned, apply_pending) (ap (λ t. (ok [], record c { table = t })) (sym there)),
        (plan.ahead, rw (there, check_schema, planned) refl),
      )

  -- A run after one that succeeded applies nothing and changes nothing, and the check at the start of
  -- the application accepts the database.
  pub apply_again :
      (c c' : Connection S) (versions : List ℕ)
      → apply execute ms c ≡ (ok versions, c')
      → (apply execute ms c' ≡ (ok [], c'))
        × ((ahead : List ℕ) × (check_schema c'.table ms ≡ ok ahead))
  unfolding apply check_schema
  apply_again c c' versions e = elim (subst (Runs c) e (apply-Runs c)) [
    | inl (_, (x, failed), _) ↦ cc
    | inr (plan, p, a) ↦ again c' (settled c c' versions plan p a) (a.there refl)
  ]
