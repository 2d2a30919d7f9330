-- ===== src/Domain/Scheduler.antt =====
-- app/domain/services/scheduler.py: the choice of a node for a job. Scores are floats, which come
-- with the operations that the code calls as a parameter.
pub mod Selection
use aethergrid.Base.{
  ℕ, ◌-◌, Bool, true, false, not, ◌&&◌, Option, none, some, List, [], ◌∷◌, ◌≡◌, Dict, ltb, ◌==◌,
  if◌then◌else◌, filter, Result, ok, raise, zero_division, and_then,
}
use aethergrid.Base.Text.{has_entry}
use aethergrid.Domain.Resources.{Time, Resources}
use aethergrid.Domain.Job.{Job}
use aethergrid.Domain.Node.{Node, is_alive, can_host}

-- Python's floats: `0.0`, `+`, the quotient of two ints by a divisor other than 0, and `<`, which is
-- irreflexive and transitive (also where a comparison with NaN is false).
pub record Float : Type 1 where
  pub Num : Type 0
  pub zero : Num
  pub add : Num → Num → Num
  pub ratio : ℕ → ℕ → Num
  pub lt : Num → Num → Bool
  pub lt_irrefl : (a : Num) → lt a a ≡ false
  pub lt_trans : (a b c : Num) → lt a b ≡ true → lt b c ≡ true → lt a c ≡ true

unfoldable pub matches_constraints : Dict → Dict → Bool
matches_constraints [] labels = true
matches_constraints ((key, value) ∷ constraints) labels =
    let rest = matches_constraints constraints labels in
    if not (has_entry key value labels) then false else rest

unfoldable pub same_tenant : Job → Node → Bool
same_tenant job node = node.tenant_id == job.tenant_id

-- The condition of the comprehension in `select_node`.
unfoldable pub is_candidate : Job → Time → Node → Bool
unfolding same_tenant matches_constraints is_alive can_host
is_candidate job now node =
    same_tenant job node
    && (is_alive now node
        && (not node.draining
            && (matches_constraints job.constraints node.labels && can_host job.resources node)))

module _ (F : Float) where
  open F use {Num, zero, add, ratio, lt}

  -- One dimension of the score. A candidate has what is requested, so the difference is that of
  -- the naturals.
  unfoldable pub add_dimension : (requested available capacity : ℕ) → Num → Result Num
  add_dimension requested available capacity score =
      if ltb 0 requested
      then if capacity == 0
        then raise zero_division
        else ok (add score (ratio (available - requested) capacity))
      else ok score

  unfoldable pub fit_score : Job → Node → Result Num
  unfolding add_dimension
  fit_score job node =
      and_then
        (add_dimension job.resources.cpu_cores node.available.cpu_cores node.capacity.cpu_cores
          zero)
        λ score.
          and_then
            (add_dimension job.resources.memory_mib node.available.memory_mib
              node.capacity.memory_mib score)
            λ score'.
              add_dimension job.resources.vram_mib node.available.vram_mib node.capacity.vram_mib
                score'

  -- `min(candidates, key=…)`, which keeps the first of equals, behind the best one so far.
  unfoldable pub min_from : Job → Node → Num → List Node → Result Node
  min_from job best score [] = ok best
  min_from job best score (node ∷ nodes) =
      and_then (fit_score job node) λ s.
        min_from job (if lt s score then node else best) (if lt s score then s else score) nodes

  unfoldable pub min_by_score : Job → List Node → Result (Option Node)
  unfolding min_from
  min_by_score job [] = ok none
  min_by_score job (node ∷ nodes) =
      and_then (fit_score job node) λ s. and_then (min_from job node s nodes) λ best. ok (some best)

  unfoldable pub select_node : Job → List Node → Time → Result (Option Node)
  unfolding is_candidate min_by_score
  select_node job nodes now = min_by_score job (filter (is_candidate job now) nodes)
