-- ===== src/Domain/Scheduler/Selection.antt =====
-- What `Scheduler.select_node` of app/domain/services/scheduler.py promises.
use aethergrid.Base.{
  ℕ, ◌+◌, ◌-◌, ◌≤◌, ◌≡◌, refl, ◌↔◌, ◌⊎◌, inl, inr, true, false, Option, none, some, List, [], ◌∷◌,
  arith, String, Dict, ltb, if◌then◌else◌, Bool-cases, All, All-filter, All-filter_inv,
  All-filter_passes, All-map, All-and, Member, Member-filter, filter, Result, ok, raise,
}
use aethergrid.Base.Text.{get, has_entry, has_entry_iff}
use aethergrid.Domain.Resources.{Time, Fits}
use aethergrid.Domain.Job.{Job}
use aethergrid.Domain.Node.{Node, heartbeat_timeout}
use aethergrid.Domain.Node.Capacity.{IsSound}
use aethergrid.Domain.Scheduler.{
  Float, matches_constraints, is_candidate, add_dimension, fit_score, min_from, min_by_score,
  select_node,
}

abbrev pub Entry : Dict → String × String → Type 0
Entry labels (key, value) = get key labels ≡ some value

-- The five conditions that the docstring of `select_node` lists.
pub record IsEligible (job : Job) (now : Time) (node : Node) : Type 0 where
  pub tenant : node.tenant_id ≡ job.tenant_id
  pub alive : now ≤ node.last_seen_at + heartbeat_timeout
  pub accepting : node.draining ≡ false
  pub labelled : All (Entry node.labels) job.constraints
  pub fits : Fits job.resources node.available

matches→All :
    (constraints labels : Dict)
    → matches_constraints constraints labels ≡ true
    → All (Entry labels) constraints
unfolding matches_constraints
matches→All [] labels h = tt
matches→All ((k, v) ∷ cs) labels h = elim (Bool-cases (has_entry k v labels)) [
  | inl e ↦ ((has_entry_iff k v labels).0 e, matches→All cs labels (ground arith))
  | inr e ↦ ground arith
]

All→matches :
    (constraints labels : Dict)
    → All (Entry labels) constraints
    → matches_constraints constraints labels ≡ true
unfolding matches_constraints
All→matches [] labels h = refl
All→matches ((k, v) ∷ cs) labels h =
    rw ((has_entry_iff k v labels).1 h.0) (All→matches cs labels h.1)

-- The test of the code decides the five conditions.
pub is_candidate_iff :
    (job : Job) (now : Time) (node : Node)
    → (is_candidate job now node ≡ true) ↔ IsEligible job now node
unfolding is_candidate
is_candidate_iff job now node = (
  λ h. record {
    tenant = ground arith;
    alive = ground arith;
    accepting = ground arith;
    labelled = matches→All job.constraints node.labels (ground arith);
    fits = ground arith;
  },
  λ e. ground (arith, All→matches job.constraints node.labels e.labelled),
)

module _ (F : Float) where
  open F use {Num, add, ratio, lt, lt_irrefl, lt_trans}

  AtMost : Num → Num → Type 0
  AtMost s t = (s ≡ t) ⊎ (lt s t ≡ true)

  not_lt : (s t : Num) → AtMost s t → lt t s ≡ false
  unfolding AtMost
  not_lt s t (inl e) = rw e (lt_irrefl t)
  not_lt s t (inr h) = ground (arith, lt_trans s t s h, lt_irrefl s)

  add_dimension_total :
      (r a c : ℕ) (score : Num) → r ≤ a → a ≤ c → (s : Num) × (add_dimension F r a c score ≡ ok s)
  unfolding add_dimension
  add_dimension_total r a c score h k =
      (if ltb 0 r then add score (ratio (a - r) c) else score, ground arith)

  -- A node that has what is requested divides by no zero.
  fit_score_total :
      (job : Job) (node : Node)
      → Fits job.resources node.available
      → IsSound node
      → (s : Num) × (fit_score F job node ≡ ok s)
  unfolding fit_score
  fit_score_total job node h k =
      let (s, e) =
        add_dimension_total job.resources.cpu_cores node.available.cpu_cores node.capacity.cpu_cores
          F.zero h.cpu k.cpu in
      let (t, f) =
        add_dimension_total job.resources.memory_mib node.available.memory_mib
          node.capacity.memory_mib s h.memory k.memory in
      let (u, g) =
        add_dimension_total job.resources.vram_mib node.available.vram_mib node.capacity.vram_mib t
          h.vram k.vram in
      (u, rw (e, f) g)

  Scored : Job → Node → Type 0
  Scored job node = (s : Num) × (fit_score F job node ≡ ok s)

  -- `node` has a score, and `best` a score that no other is below.
  abbrev Unbeaten : Job → Num → Node → Type 0
  Unbeaten job s node = (t : Num) × (fit_score F job node ≡ ok t) × (lt t s ≡ false)

  record Minimum (job : Job) (first : Node) (score : Num) (nodes : List Node) : Type 0 where
    best : Node
    value : Num
    found : min_from F job first score nodes ≡ ok best
    scored : fit_score F job best ≡ ok value
    below : AtMost value score
    least : All (Unbeaten job value) nodes
    member : (best ≡ first) ⊎ Member best nodes

  min_from_total :
      (job : Job) (first : Node) (score : Num) (nodes : List Node)
      → fit_score F job first ≡ ok score
      → All (Scored job) nodes
      → Minimum job first score nodes
  unfolding min_from AtMost Scored
  min_from_total job first score [] e h = record {
    best = first;
    value = score;
    found = refl;
    scored = e;
    below = inl refl;
    least = tt;
    member = inl refl;
  }
  min_from_total job first score (node ∷ nodes) e ((s, f), h) = elim (Bool-cases (lt s score)) [
    | inl less ↦
        let m : Minimum job node s nodes = min_from_total job node s nodes f h in
        record {
          best = m.best;
          value = m.value;
          found = rw (f, less) m.found;
          scored = m.scored;
          below = inr (ground (arith, m.below, lt_trans m.value s score));
          least = ((s, f, not_lt m.value s m.below), m.least);
          member = inr m.member;
        }
    | inr more ↦
        let m : Minimum job first score nodes = min_from_total job first score nodes e h in
        record {
          best = m.best;
          value = m.value;
          found = rw (f, more) m.found;
          scored = m.scored;
          below = m.below;
          least = (
            (s, f, ground (arith, m.below, lt_trans s m.value score, Bool-cases (lt s m.value))),
            m.least,
          );
          member = ground (arith, m.member);
        }
  ]

  -- The node that is chosen: one of the nodes given, eligible, and with the least score.
  pub record Chosen (job : Job) (now : Time) (nodes : List Node) (node : Node) : Type 0 where
    pub member : Member node nodes
    pub eligible : IsEligible job now node
    pub score : Num
    pub scored : fit_score F job node ≡ ok score
    pub least : All (λ m. IsEligible job now m → Unbeaten job score m) nodes

  abbrev pub Selects : Job → Time → List Node → Result (Option Node) → Type 0
  Selects job now nodes (ok none) = All (λ m. ¬ IsEligible job now m) nodes
  Selects job now nodes (ok (some node)) = Chosen job now nodes node
  Selects job now nodes (raise _) = ⊥

  min_by_score-Selects :
      (job : Job) (now : Time) (nodes candidates : List Node)
      → filter (is_candidate job now) nodes ≡ candidates
      → All (Scored job) candidates
      → Selects job now nodes (min_by_score F job candidates)
  unfolding min_by_score Scored
  min_by_score-Selects job now nodes [] e h =
      All-map (λ m. is_candidate job now m ≡ true → ⊥) (λ m. ¬ IsEligible job now m) nodes
        (λ m refuted eligible. refuted ((is_candidate_iff job now m).1 eligible))
        (All-filter_inv (λ m. ⊥) (is_candidate job now) nodes (rw e tt))
  min_by_score-Selects job now nodes (first ∷ rest) e ((s, f), h) =
      let m : Minimum job first s rest = min_from_total job first s rest f h in
      let (kept, passes) = Member-filter (is_candidate job now) m.best nodes (rw e m.member) in
      rw (f, m.found)
        (record {
          member = kept;
          eligible = (is_candidate_iff job now m.best).0 passes;
          score = m.value;
          scored = m.scored;
          least =
              All-map (λ n. is_candidate job now n ≡ true → Unbeaten job m.value n)
                (λ n. IsEligible job now n → Unbeaten job m.value n) nodes
                (λ n unbeaten eligible. unbeaten ((is_candidate_iff job now n).1 eligible))
                (All-filter_inv (Unbeaten job m.value) (is_candidate job now) nodes
                  (rw e ((s, f, not_lt m.value s m.below), m.least)));
        })

  -- Where no node has more available than its capacity, `select_node` raises nothing. It returns
  -- `None` exactly when no node is eligible, and otherwise one of the eligible nodes whose score no
  -- eligible node is below.
  pub select_node-Selects :
      (job : Job) (nodes : List Node) (now : Time)
      → All IsSound nodes
      → Selects job now nodes (select_node F job nodes now)
  unfolding select_node Scored
  select_node-Selects job nodes now sound = min_by_score-Selects job now nodes _ refl (
      All-map (λ n. (is_candidate job now n ≡ true) × IsSound n) (Scored job) _
        (λ n (passes, fits).
          fit_score_total job n ((is_candidate_iff job now n).0 passes).fits fits)
        (All-and (λ n. is_candidate job now n ≡ true) IsSound _
          (All-filter_passes (is_candidate job now) nodes)
          (All-filter IsSound (is_candidate job now) nodes sound)))
