-- ===== src/Migrations/Plan/Agreement.antt =====
-- What `plan_migrations` promises for a numbered set: which histories it accepts, and the plan for each.
use text.Mathlib.Text.{◌==◌ as str_eq}
use text.Mathlib.TextEquality.{eq_iff}
use aethergrid.Base.{
  ℕ, suc, ◌+◌, ◌-◌, ◌≤◌, ◌≡◌, ◌≢◌, ◌↔◌, migration_error, refl, sym, ap, ◌∙◌, subst, Bool, true,
  false, none, some, List, [], ◌∷◌, map, ltb, arith, length, filter, drop, get_elem?,
  drop-get_elem?, drop_past, if◌then◌else◌, Result, ok, raise, and_then, and_then-ok, Bool-cases,
  Option-cases, ◌⊎◌, inl, inr,
}
use aethergrid.Migrations.{Migration, Row, MigrationPlan, Numbered}
use aethergrid.Migrations.Plan.{
  check_history, by_version, compare_row, compare_rows, is_empty, plan_migrations,
}
use aethergrid.Migrations.Plan.Versions.{
  version_of, row_version, Agrees, check_history_iff, filter_later, by_version_lem, highest_lem,
  drop_nil, past_next, Agrees-nil,
}

module _ (ms : List Migration) (h : Numbered version_of 1 ms) where
  compare_row_known :
      (n : ℕ) (r : Row) (m : Migration)
      → r.version ≡ n + 1
      → get_elem? ms n ≡ some m
      → compare_row ms r
        ≡ (if str_eq m.checksum r.checksum then ok false else raise migration_error)
  unfolding compare_row
  compare_row_known n r m v e =
      let found : by_version r.version ms ≡ some m =
        ap (λ t. by_version t ms) (omega (arith, v)) ∙ (by_version_lem n 1 ms h ∙ e) in
      rw (compare_row, found) refl

  compare_row_ahead :
      (n : ℕ) (r : Row)
      → ms ≢ []
      → r.version ≡ n + 1
      → get_elem? ms n ≡ none
      → compare_row ms r ≡ ok true
  unfolding compare_row
  compare_row_ahead n r some_file v e =
      let found : by_version r.version ms ≡ none =
        ap (λ t. by_version t ms) (omega (arith, v)) ∙ (by_version_lem n 1 ms h ∙ e) in
      let past : length ms ≤ n = (drop_past ms n e).1 in
      elim (highest_lem 0 ms h) [
        | inl empty ↦ absurd (some_file empty)
        | inr high ↦ ground (arith, found, past, high)
      ]

  next :
      (n : ℕ) (rs : List Row)
      → Numbered row_version (n + 1 + 1) rs
      → Numbered row_version (suc n + 1) rs
  next n rs num = subst (λ k. Numbered row_version k rs) (omega arith) num

  -- The rest of the second loop after a row.
  abbrev after : Row → List Row → Bool → Result (List ℕ)
  after r rs is_ahead =
      and_then (compare_rows ms rs) λ ahead. ok (if is_ahead then r.version ∷ ahead else ahead)

  -- What the second loop makes of the rows from the one numbered `n + 1` on.
  abbrev Compares : ℕ → List Row → List ℕ → Type 0
  Compares n rows ahead =
      Agrees rows (drop n ms) × (ahead ≡ map row_version (drop (length ms - n) rows))

  compare_rows-Compares :
      (n : ℕ) (rows : List Row) (ahead : List ℕ)
      → ms ≢ []
      → Numbered row_version (n + 1) rows
      → compare_rows ms rows ≡ ok ahead
      → Compares n rows ahead
  unfolding compare_rows
  compare_rows-Compares n [] ahead some_file num e =
      (tt, cc (ap (map row_version) (drop_nil (length ms - n))))
  compare_rows-Compares n (r ∷ rs) ahead some_file num e = elim (Option-cases (get_elem? ms n)) [
    | inl past ↦
        let (none_left, short) = drop_past ms n past in
        let e1 : after r rs true ≡ ok ahead =
          subst (λ c. and_then c (after r rs) ≡ ok ahead)
            (compare_row_ahead n r some_file num.0 past) e in
        let (rest, second, same) = and_then-ok (compare_rows ms rs) _ ahead e1 in
        let ih : Compares (suc n) rs rest =
          compare_rows-Compares (suc n) rs rest some_file (next n rs num.1) second in
        let zero_left : length ms - n ≡ 0 = omega (arith, short) in
        let zero_left' : length ms - suc n ≡ 0 = omega (arith, short) in
        let rest_same : rest ≡ map row_version rs =
          ih.1 ∙ ap (λ k. map row_version (drop k rs)) zero_left' in
        rw (none_left, zero_left) (tt, cc (rest_same, same))
    | inr (m, here) ↦
        let (left, inside) = drop-get_elem? ms n m here in
        let e1 : and_then (if str_eq m.checksum r.checksum then ok false else raise migration_error)
              (after r rs)
            ≡ ok ahead =
          subst (λ c. and_then c (after r rs) ≡ ok ahead) (compare_row_known n r m num.0 here) e in
        elim (Bool-cases (str_eq m.checksum r.checksum)) [
          | inr differ ↦ ground arith
          | inl agree ↦
              let (rest, second, same) =
                and_then-ok (compare_rows ms rs) _ ahead (rw agree at e1) in
              let ih : Compares (suc n) rs rest =
                compare_rows-Compares (suc n) rs rest some_file (next n rs num.1) second in
              let one_less : length ms - n ≡ suc (length ms - suc n) = omega (arith, inside) in
              rw (left, one_less) (((eq_iff m.checksum r.checksum).0 agree, ih.0), cc (ih.1, same))
        ]
  ]

  compare_rows_ok :
      (n : ℕ) (rows : List Row)
      → ms ≢ []
      → Numbered row_version (n + 1) rows
      → Agrees rows (drop n ms)
      → compare_rows ms rows ≡ ok (map row_version (drop (length ms - n) rows))
  unfolding compare_rows
  compare_rows_ok n [] some_file num agrees = rw (drop_nil (length ms - n)) refl
  compare_rows_ok n (r ∷ rs) some_file num agrees = elim (Option-cases (get_elem? ms n)) [
    | inl past ↦
        let (none_left, short) = drop_past ms n past in
        let (none_left', _) = drop_past ms (suc n) (past_next ms n past) in
        let zero_left : length ms - n ≡ 0 = omega (arith, short) in
        let zero_left' : length ms - suc n ≡ 0 = omega (arith, short) in
        let rest : compare_rows ms rs ≡ ok (map row_version (drop (length ms - suc n) rs)) =
          compare_rows_ok (suc n) rs some_file (next n rs num.1) (rw none_left' (Agrees-nil rs)) in
        rw (zero_left, compare_rows, compare_row_ahead n r some_file num.0 past, rest, zero_left')
          refl
    | inr (m, here) ↦
        let (left, inside) = drop-get_elem? ms n m here in
        let one_less : length ms - n ≡ suc (length ms - suc n) = omega (arith, inside) in
        let both : Agrees (r ∷ rs) (m ∷ drop (suc n) ms) = rw left at agrees in
        let rest : compare_rows ms rs ≡ ok (map row_version (drop (length ms - suc n) rs)) =
          compare_rows_ok (suc n) rs some_file (next n rs num.1) both.1 in
        let agree : str_eq m.checksum r.checksum ≡ true = (eq_iff m.checksum r.checksum).1 both.0 in
        rw (one_less, compare_rows, compare_row_known n r m num.0 here, agree, rest) refl
  ]

  -- A plan for a history: the history is numbered from 1 on, the set is not empty unless the history
  -- is, the checksums agree; what is pending is the set past the length of the history, what is ahead
  -- the history past the length of the set.
  pub record IsPlanned (recorded : List Row) (plan : MigrationPlan) : Type 0 where
    pub history : Numbered row_version 1 recorded
    pub carries : (recorded ≡ []) ⊎ (ms ≢ [])
    pub agrees : Agrees recorded ms
    pub pending : plan.pending ≡ drop (length recorded) ms
    pub ahead : plan.ahead ≡ map row_version (drop (length ms) recorded)

  pending_lem :
      (recorded : List Row)
      → filter (λ (m : Migration). ltb (length recorded) m.version) ms ≡ drop (length recorded) ms
  pending_lem recorded =
      let same : 0 + length recorded ≡ length recorded = omega arith in
      subst (λ t. filter (λ (m : Migration). ltb t m.version) ms ≡ drop (length recorded) ms) same
        (filter_later (length recorded) 0 ms h)

  planned :
      (recorded : List Row) (ahead : List ℕ) (plan : MigrationPlan)
      → Numbered row_version 1 recorded
      → (recorded ≡ []) ⊎ (ms ≢ [])
      → Agrees recorded ms
      → ahead ≡ map row_version (drop (length ms) recorded)
      → plan ≡ record {
        pending = filter (λ (m : Migration). ltb (length recorded) m.version) ms;
        ahead = ahead;
      }
      → IsPlanned recorded plan
  planned recorded ahead plan history carries agrees e same = record {
    history = history;
    carries = carries;
    agrees = agrees;
    pending = ap (λ p. p.pending) same ∙ pending_lem recorded;
    ahead = ap (λ p. p.ahead) same ∙ e;
  }

  abbrev plan_of : List Row → List ℕ → MigrationPlan
  plan_of recorded ahead = record {
    pending = filter (λ (m : Migration). ltb (length recorded) m.version) ms;
    ahead = ahead;
  }

  minus_zero : (k : ℕ) → k - 0 ≡ k
  minus_zero k = omega arith

  next_zero : (rs : List Row) → Numbered row_version 1 rs → Numbered row_version (0 + 1) rs
  next_zero rs num = subst (λ k. Numbered row_version k rs) (omega arith) num

  empty-cases : ((ms ≡ []) × (is_empty ms ≡ true)) ⊎ ((ms ≢ []) × (is_empty ms ≡ false))
  empty-cases = go ms
    where
      go :
          (l : List Migration)
          → ((l ≡ []) × (is_empty l ≡ true)) ⊎ ((l ≢ []) × (is_empty l ≡ false))
      go [] = inl (refl, refl)
      go (m ∷ l) = inr ((λ e. cc), refl)

  -- The plan that is returned where nothing raises.
  returned :
      (recorded : List Row) (plan : MigrationPlan)
      → IsPlanned recorded plan
      → plan_of recorded (map row_version (drop (length ms) recorded)) ≡ plan
  returned recorded plan p =
      let pending : filter (λ (m : Migration). ltb (length recorded) m.version) ms ≡ plan.pending =
        pending_lem recorded ∙ sym p.pending in
      cc (pending, p.ahead)

  IsPlanned-plan_migrations :
      (recorded : List Row) (plan : MigrationPlan)
      → IsPlanned recorded plan
      → plan_migrations recorded ms ≡ ok plan
  unfolding plan_migrations compare_rows check_history
  IsPlanned-plan_migrations [] plan p =
      ap ok
        (ap (plan_of []) (sym (ap (map row_version) (drop_nil (length ms)))) ∙ returned [] plan p)
  IsPlanned-plan_migrations (r ∷ rs) plan p =
      let history : check_history 1 (r ∷ rs) ≡ ok tt = (check_history_iff 1 (r ∷ rs)).1 p.history in
      elim p.carries [
        | inl none_there ↦ cc
        | inr some_there ↦ elim empty-cases [
          | inl (none_there, empty) ↦ absurd (some_there none_there)
          | inr (_, full) ↦
              let compared : compare_rows ms (r ∷ rs)
                  ≡ ok (map row_version (drop (length ms - 0) (r ∷ rs))) =
                compare_rows_ok 0 (r ∷ rs) some_there (next_zero (r ∷ rs) p.history) p.agrees in
              let compared' : compare_rows ms (r ∷ rs)
                  ≡ ok (map row_version (drop (length ms) (r ∷ rs))) =
                compared
                ∙ ap (λ k. ok (map row_version (drop k (r ∷ rs)))) (minus_zero (length ms)) in
              rw (plan_migrations, history, full, compared') (ap ok (returned (r ∷ rs) plan p))
        ]
      ]

  plan_migrations-IsPlanned :
      (recorded : List Row) (plan : MigrationPlan)
      → plan_migrations recorded ms ≡ ok plan
      → IsPlanned recorded plan
  unfolding plan_migrations compare_rows check_history
  plan_migrations-IsPlanned [] plan e =
      planned [] [] plan tt (inl refl) tt (sym (ap (map row_version) (drop_nil (length ms)))) cc
  plan_migrations-IsPlanned (r ∷ rs) plan e =
      let (u, history, e1) = and_then-ok (check_history 1 (r ∷ rs)) _ plan e in
      elim empty-cases [
        | inl (none_there, empty) ↦ absurd (ground (arith, empty, e1))
        | inr (some_there, full) ↦
            let e2 : and_then (compare_rows ms (r ∷ rs)) (λ ahead. ok (plan_of (r ∷ rs) ahead))
                ≡ ok plan =
              ground (arith, full, e1) in
            let (ahead, second, same) = and_then-ok (compare_rows ms (r ∷ rs)) _ plan e2 in
            let numbered : Numbered row_version 1 (r ∷ rs) =
              (check_history_iff 1 (r ∷ rs)).0 history in
            let c : Compares 0 (r ∷ rs) ahead =
              compare_rows-Compares 0 (r ∷ rs) ahead some_there (next_zero (r ∷ rs) numbered)
                second in
            planned (r ∷ rs) ahead plan numbered (inr some_there) c.0
              (c.1 ∙ ap (λ k. map row_version (drop k (r ∷ rs))) (minus_zero (length ms))) cc
      ]

  -- For a numbered set: a history is planned exactly where it is numbered from 1 on without a hole,
  -- its checksums are those of the files, and it is not one of a build that carries no files; then what
  -- is pending is the rest of the set past it, and what is ahead the rest of it past the set.
  pub plan_migrations_iff :
      (recorded : List Row) (plan : MigrationPlan)
      → (plan_migrations recorded ms ≡ ok plan) ↔ IsPlanned recorded plan
  unfolding plan_migrations
  plan_migrations_iff recorded plan =
      (plan_migrations-IsPlanned recorded plan, IsPlanned-plan_migrations recorded plan)
