-- ===== src/Store/Sqlite.antt =====
-- app/infrastructure/repositories/sqlite_job_repository.py: jobs as rows of texts and numbers. How Python writes
-- identifiers, times, JSON and durations, and reads them back, is a parameter.
pub mod Saves
use text.Mathlib.Text.{◌==◌ as str_eq}
use aethergrid.Base.{
  ℕ, ◌≡◌, Bool, true, false, not, ◌&&◌, Option, none, some, List, [], ◌∷◌, String, ℤ, Dict,
  if◌then◌else◌, any, filter, find, Action, ok, raise, Result, and_then, leb, value_error,
  job_tenant_conflict,
}
use aethergrid.Domain.Resources.{Resources, Time, Duration}
use aethergrid.Domain.Job.{Job, JobStatus, default_execution_timeout}

-- A read leaves the table as it is: the statements of a result.
infixl 5 ◌>>=◌ ◌>>◌
abbrev ◌>>=◌ : {A B : Type 0} → Result A → (A → Result B) → Result B
r >>= f = and_then r f

abbrev ◌>>◌ : {A B : Type 0} → Result A → Result B → Result B
r >> s = r >>= λ _. s

-- `raise ValueError` under a condition, and what a reader that refuses a text does.
abbrev refuse_if : Bool → Result (Unit {0})
refuse_if true = raise value_error
refuse_if false = ok tt

abbrev pub read : {A : Type 0} → Option A → Result A
read none = raise value_error
read (some a) = ok a

-- `str` and `UUID`, `isoformat` and `fromisoformat`, `json.dumps` and `json.loads`, `total_seconds` and
-- `timedelta(seconds=…)`. A reader gives `none` where Python raises ValueError.
pub record Codec : Type 1 where
  -- what the columns hold: texts of identifiers, of times and of JSON, and floats
  pub Uuid : Type 0
  pub Iso : Type 0
  pub DictJson : Type 0
  pub ListJson : Type 0
  pub Real : Type 0
  -- SQL's `=` on the texts of identifiers
  pub equal : Uuid → Uuid → Bool
  pub uuid_text : ℕ → Uuid
  pub uuid : Uuid → Option ℕ
  pub isoformat : Time → Iso
  pub fromisoformat : Iso → Option Time
  pub dumps_dict : Dict → DictJson
  pub loads_dict : DictJson → Option Dict
  pub dumps_list : List String → ListJson
  pub loads_list : ListJson → Option (List String)
  pub total_seconds : Duration → Real
  pub timedelta : Real → Duration

-- `JobStatus.value`
unfoldable pub value : JobStatus → String
value JobStatus.submitted = "SUBMITTED"
value JobStatus.queued = "QUEUED"
value JobStatus.scheduled = "SCHEDULED"
value JobStatus.running = "RUNNING"
value JobStatus.cancelling = "CANCELLING"
value JobStatus.completed = "COMPLETED"
value JobStatus.failed = "FAILED"
value JobStatus.cancelled = "CANCELLED"

abbrev members : List JobStatus
members =
    JobStatus.submitted ∷ JobStatus.queued ∷ JobStatus.scheduled ∷ JobStatus.running
    ∷ JobStatus.cancelling ∷ JobStatus.completed ∷ JobStatus.failed ∷ JobStatus.cancelled ∷ []

-- `JobStatus(text)`
unfoldable pub status_of : String → Option JobStatus
unfolding value
status_of text = find (λ s. str_eq (value s) text) members

abbrev pub to_text : {A B : Type 0} → (A → B) → Option A → Option B
to_text f none = none
to_text f (some a) = some (f a)

module _ (c : Codec) where
  -- A row of the table `jobs`.
  pub record JobRow : Type 0 where
    pub id : c.Uuid
    pub cpu_cores : ℕ
    pub memory_mib : ℕ
    pub vram_mib : ℕ
    pub priority : ℤ
    pub constraints : c.DictJson
    pub max_retries : ℕ
    pub retry_count : ℕ
    pub status : String
    pub assigned_node_id : Option c.Uuid
    pub submitted_at : c.Iso
    pub started_at : Option c.Iso
    pub completed_at : Option c.Iso
    pub command : Option c.ListJson
    pub exit_code : Option ℤ
    pub cancellation_requested_at : Option c.Iso
    pub execution_timeout_seconds : Option c.Real
    pub tenant_id : c.Uuid

  -- The parameters of the INSERT.
  unfoldable pub to_row : Job → JobRow
  unfolding value
  to_row job = record {
    id = c.uuid_text job.id;
    cpu_cores = job.resources.cpu_cores;
    memory_mib = job.resources.memory_mib;
    vram_mib = job.resources.vram_mib;
    priority = job.priority;
    constraints = c.dumps_dict job.constraints;
    max_retries = job.max_retries;
    retry_count = job.retry_count;
    status = value job.status;
    assigned_node_id = to_text c.uuid_text job.assigned_node_id;
    submitted_at = c.isoformat job.submitted_at;
    started_at = to_text c.isoformat job.started_at;
    completed_at = to_text c.isoformat job.completed_at;
    command = to_text c.dumps_list job.command;
    exit_code = job.exit_code;
    cancellation_requested_at = to_text c.isoformat job.cancellation_requested_at;
    execution_timeout_seconds = some (c.total_seconds job.execution_timeout);
    tenant_id = c.uuid_text job.tenant_id;
  }

  -- A row with this identifier, in another tenant: the WHERE of the upsert keeps it as it is.
  abbrev pub in_other_tenant : JobRow → JobRow → Bool
  in_other_tenant new row = c.equal row.id new.id && not (c.equal row.tenant_id new.tenant_id)

  -- INSERT … ON CONFLICT(id) DO UPDATE: the identifier and the tenant of a row stay.
  unfoldable pub upsert_row : JobRow → List JobRow → List JobRow
  upsert_row new [] = new ∷ []
  upsert_row new (row ∷ rows) =
      if c.equal row.id new.id
      then record new { id = row.id; tenant_id = row.tenant_id } ∷ rows
      else row ∷ upsert_row new rows

  -- `save`: a statement that changes no row is another tenant's job.
  unfoldable pub save : Job → Action (List JobRow) (Unit {0})
  unfolding to_row upsert_row
  save job rows =
      if any (in_other_tenant (to_row job)) rows
      then (raise job_tenant_conflict, rows)
      else (ok tt, upsert_row (to_row job) rows)

  -- The conditional expressions on a column that may be NULL.
  unfoldable pub read_optional : {A B : Type 0} → (B → Option A) → Option B → Result (Option A)
  read_optional reader none = ok none
  read_optional reader (some text) = read (reader text) >>= λ a. ok (some a)

  abbrev pub timeout_of : Option c.Real → Duration
  timeout_of none = default_execution_timeout
  timeout_of (some r) = c.timedelta r

  -- `_row_to_job`, with `Job.__post_init__` at its end.
  unfoldable pub row_to_job : JobRow → Result Job
  unfolding read_optional status_of
  row_to_job row = do
    assigned_node_id ← read_optional c.uuid row.assigned_node_id
    command ← read_optional c.loads_list row.command
    id ← read (c.uuid row.id)
    tenant_id ← read (c.uuid row.tenant_id)
    constraints ← read (c.loads_dict row.constraints)
    status ← read (status_of row.status)
    submitted_at ← read (c.fromisoformat row.submitted_at)
    started_at ← read_optional c.fromisoformat row.started_at
    completed_at ← read_optional c.fromisoformat row.completed_at
    cancellation_requested_at ← read_optional c.fromisoformat row.cancellation_requested_at
    refuse_if (leb row.cpu_cores 0)
    refuse_if (leb row.memory_mib 0)
    ok (record {
      id = id;
      resources = record {
        cpu_cores = row.cpu_cores;
        memory_mib = row.memory_mib;
        vram_mib = row.vram_mib;
      };
      tenant_id = tenant_id;
      priority = row.priority;
      constraints = constraints;
      max_retries = row.max_retries;
      retry_count = row.retry_count;
      execution_timeout = timeout_of row.execution_timeout_seconds;
      status = status;
      assigned_node_id = assigned_node_id;
      submitted_at = submitted_at;
      started_at = started_at;
      completed_at = completed_at;
      cancellation_requested_at = cancellation_requested_at;
      command = command;
      exit_code = row.exit_code;
    })

  -- `if row is None: return None`
  abbrev pub row_or_none : Option JobRow → Result (Option Job)
  row_or_none none = ok none
  row_or_none (some row) = row_to_job row >>= λ job. ok (some job)

  unfoldable pub rows_to_jobs : List JobRow → Result (List Job)
  unfolding row_to_job
  rows_to_jobs [] = ok []
  rows_to_jobs (row ∷ rows) = do job ← row_to_job row; jobs ← rows_to_jobs rows; ok (job ∷ jobs)

  unfoldable pub get_by_id : (job_id tenant_id : ℕ) → List JobRow → Result (Option Job)
  unfolding row_to_job
  get_by_id job_id tenant_id rows = row_or_none (
      find
        (λ (row : JobRow).
          c.equal row.id (c.uuid_text job_id) && c.equal row.tenant_id (c.uuid_text tenant_id))
        rows)

  unfoldable pub get_by_id_across_tenants : (job_id : ℕ) → List JobRow → Result (Option Job)
  unfolding row_to_job
  get_by_id_across_tenants job_id rows =
      row_or_none (find (λ (row : JobRow). c.equal row.id (c.uuid_text job_id)) rows)

  unfoldable pub list_queued : (tenant_id : ℕ) → List JobRow → Result (List Job)
  unfolding rows_to_jobs value
  list_queued tenant_id rows = rows_to_jobs (
      filter
        (λ (row : JobRow).
          str_eq row.status (value JobStatus.queued)
          && c.equal row.tenant_id (c.uuid_text tenant_id))
        rows)

  unfoldable pub list_across_tenants : List JobRow → Result (List Job)
  unfolding rows_to_jobs
  list_across_tenants rows = rows_to_jobs rows
