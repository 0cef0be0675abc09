-- ===== src/Tests/Routes.antt =====
-- The theorems on the routes.
use loopgraph_supervisor.Prelude.{ℕ, ◌≡◌, true, some, [], ◌∷◌, ◌⊎◌, ◌++◌}
use loopgraph_supervisor.Floats.Fixed.{thousandths}
use loopgraph_supervisor.Domain.Json.{end}
use loopgraph_supervisor.Engine.Exec.{ok, err, Exception}
use loopgraph_supervisor.Memory.{semantic, MemoryRecord, WriteCalls}
use loopgraph_supervisor.Runtime.{Runtime}
use loopgraph_supervisor.Versions.{create_initial}
use loopgraph_supervisor.Versions.Records.{VersionCalls}
use loopgraph_supervisor.Evolution.Mutator.{MutationPlan}
use loopgraph_supervisor.Api.Routes.{create_candidate_version, create_memory}
use loopgraph_supervisor.Api.Routes.Refusals.{IsAnswered, Refuses}
use loopgraph_supervisor.Api.Routes.Errors.{create_candidate_version-Refuses}
use loopgraph_supervisor.Api.Routes.Reviewed.{IsDraft, create_memory-IsDraft}
use loopgraph_supervisor.Tests.Data
use loopgraph_supervisor.Tests.Data.{demo_bundle}

abbrev calls : VersionCalls ℕ
calls = record { new_id = 12; fingerprint = λ bundle. bundle.system_prompt }

abbrev plan : MutationPlan ℕ
plan = record {
  rationale = "cite";
  system_prompt = some "Solve the task and cite.";
  skills_upsert = [];
  skills_remove = [];
  mcp_servers_upsert = [];
  mcp_servers_remove = [];
  tool_policy_patch = end;
  model_config_patch = end;
  context_patch = end;
  memory_patch = end;
  workflow_patch = end;
}

create_candidate_version-Refuses_example :
    Refuses (create_candidate_version calls "solver" 12 "ada" plan)
create_candidate_version-Refuses_example =
    create_candidate_version-Refuses calls "solver" 12 "ada" plan

abbrev service : Runtime ℕ
service = record {
  table = Data.started;
  versions =
      (create_initial calls demo_bundle "ada" true
        (record { versions = []; pointers = []; history = [] })).1;
  memories = [];
  tasks = record { max_concurrency = 1; value = 1; tasks = []; errors = [] };
}

abbrev writes : WriteCalls
writes = record { strip = λ s. s; sorted_set = λ tags. tags; new_id = 5; now = 40 }

create_memory-IsDraft_example :
    ((row : MemoryRecord ℕ) × (create_memory writes true "solver" 12 semantic "Cite the source." []
          (some 7)
          end
          "ada"
          service
        ≡ (ok row, record service { memories = service.memories ++ row ∷ [] }))
      × IsDraft "solver" 12 (some 7) row)
    ⊎ ((e : Exception ℕ) × (create_memory writes true "solver" 12 semantic "Cite the source." []
            (some 7)
            end
            "ada"
            service
          ≡ (err e, service))
        × IsAnswered e)
create_memory-IsDraft_example =
    create_memory-IsDraft writes true "solver" 12 semantic "Cite the source." [] (some 7) end "ada"
      service
