-- ===== src/Api/Promotion/Promoting.antt =====
-- `promote_version` of src/loopgraph_supervisor/api/app.py: what a promotion that is carried out has
-- checked.
use loopgraph_supervisor.Prelude.{ℕ, some}
use loopgraph_supervisor.Floats.{Floats}
use loopgraph_supervisor.Engine.Exec.{ok}
use loopgraph_supervisor.Versions
use loopgraph_supervisor.Versions.{promote}
use loopgraph_supervisor.Versions.Tables.{AgentVersion}
use loopgraph_supervisor.Versions.Records.{same_id}
use loopgraph_supervisor.Evolution.Promotion.{PromotionEvidence, PromotionPolicy, evaluate}
use loopgraph_supervisor.Runtime.{Runtime}
use loopgraph_supervisor.Api.Promotion.{PromotionRequest, PromotionCalls}
use loopgraph_supervisor.Prelude.{◌≡◌, All}
use loopgraph_supervisor.Versions.Records
use loopgraph_supervisor.Versions.Records.{VersionResult}
use loopgraph_supervisor.Evolution.Promotion.Passing.{MeetsPolicy}
use loopgraph_supervisor.Api.Promotion.Guards.{Passed, IsEvidence}

module _ {F : Type 0} ⦃fl : Floats F⦄ (calls : PromotionCalls F) (policy : PromotionPolicy F)
    (version_id : ℕ) (body : PromotionRequest) where
  -- What a promotion that is carried out has found and done: the evidence, checked and accepted by the
  -- policy, the candidate's runs without a failed hard constraint, and the version store's promotion.
  pub record IsPromotion (st st' : Runtime F) (row : AgentVersion F) : Type 0 where
    pub baseline : ℕ
    pub expected : body.expected_active_id ≡ some baseline
    pub evidence : PromotionEvidence F
    pub checked : IsEvidence calls baseline version_id body st.table evidence
    pub meets :
        MeetsPolicy policy evidence
          (calls.rounded_difference evidence.candidate_score evidence.baseline_score)
    pub passed : All (Passed calls.replacement st.table) body.candidate_run_ids
    pub table : st'.table ≡ st.table
    pub promoted :
        promote version_id body.expected_active_id body.actor body.reason
          (calls.summary evidence (evaluate calls.rounded_difference policy evidence))
          st.versions
        ≡ (Records.ok row, st'.versions)
