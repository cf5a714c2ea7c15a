-- ===== src/Run/Created.antt =====
-- What `create_run` answers (app/application/use_cases/run.py).
use aiagent_x.Common.Value.{Value}
use aiagent_x.Money.{Money}
use aiagent_x.Run.Data.{Run}
use aiagent_x.Run.Table.{Table}
