-- ===== src/Tests/Rows.antt =====
-- Jobs in SQLite.
use aethergrid.Base.{ℕ, some, [], ◌∷◌, Dict, List, String, ◌==◌}
use aethergrid.Domain.Resources.{Time, Duration}
use aethergrid.Store.Sqlite
use aethergrid.Store.Sqlite.{Codec, JobRow, to_row}
use aethergrid.Tests.Data.{queued_job, running_job}

-- Columns that hold what was written.
abbrev plain : Codec
plain = record {
  Uuid = ℕ;
  Iso = Time;
  DictJson = Dict;
  ListJson = List String;
  Real = Duration;
  equal = λ a b. a == b;
  uuid_text = λ id. id;
  uuid = λ id. some id;
  isoformat = λ t. t;
  fromisoformat = λ t. some t;
  dumps_dict = λ d. d;
  loads_dict = λ d. some d;
  dumps_list = λ l. l;
  loads_list = λ l. some l;
  total_seconds = λ d. d;
  timedelta = λ d. d;
}

abbrev two_rows : List (JobRow plain)
two_rows = to_row plain queued_job ∷ to_row plain running_job ∷ []
