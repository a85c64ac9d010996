-- ===== src/Run/Loop.antt =====
-- runtime.go: `executeRun`, the loop over the accounts.
use codex_daily_prewarm.Base.{Bool, List, [], false, if◌then◌else◌, true, ◌∷◌}
use codex_daily_prewarm.Clock.{Time}
use codex_daily_prewarm.Data.Config.{PluginConfig}
use codex_daily_prewarm.Data.Run.{RunRecord, RunRequest}
use codex_daily_prewarm.Run.Account.{step_account}
use codex_daily_prewarm.Run.Host.{Auth, RunHost, World}
use codex_daily_prewarm.Run.Initial.{FirstQuota}

abbrev pub pairs : List Auth → List FirstQuota → List (Auth × FirstQuota)
pairs (a ∷ as') (f ∷ fs) = (a, f) ∷ pairs as' fs
pairs _ _ = []

module _ {W : Type 0} (h : RunHost W) (cfg : PluginConfig) (request : RunRequest) where
  -- The record, whether the loop came to its end, and the world. Each account makes one step.
  unfoldable pub run_accounts :
      List (Auth × FirstQuota) → RunRecord → Time → World W → RunRecord × Bool × World W
  run_accounts [] run last w = (run, true, w)
  run_accounts ((auth, first) ∷ rest) run last w =
      let (run', last', goes_on, w') = step_account h cfg request auth first run last w in
      let after = run_accounts rest run' last' w' in if goes_on then after else (run', false, w')
