-- ===== src/Store/Sqlite/Saves.antt =====
-- What the SQLite repository of jobs reads back of what it saved.
use aethergrid.Base.{ℕ, ◌≡◌, ◌↔◌, ◌≤◌, true, some, List, String, Dict}
use aethergrid.Domain.Resources.{Time, Duration}
use aethergrid.Domain.Job.{Job}
use aethergrid.Store.Sqlite
use aethergrid.Store.Sqlite.{Codec, row_or_none, rows_to_jobs}

-- What the functions are documented to do: equality of texts, and each text that was written is read back.
pub record IsCodec (c : Codec) : Type 0 where
  pub equal : (a b : c.Uuid) → (c.equal a b ≡ true) ↔ (a ≡ b)
  pub uuid : (id : ℕ) → c.uuid (c.uuid_text id) ≡ some id
  pub iso : (t : Time) → c.fromisoformat (c.isoformat t) ≡ some t
  pub dict : (d : Dict) → c.loads_dict (c.dumps_dict d) ≡ some d
  pub list : (l : List String) → c.loads_list (c.dumps_list l) ≡ some l
  pub seconds : (d : Duration) → c.timedelta (c.total_seconds d) ≡ d

-- What `Job.__post_init__` asks for.
abbrev pub IsValid : Job → Type 0
IsValid job = (1 ≤ job.resources.cpu_cores) × (1 ≤ job.resources.memory_mib)
