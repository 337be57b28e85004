-- ===== src/Connector/ReadHorizons.antt =====
-- `pollConsumptionHorizons` of pkg/connector/handleteams.go: the other side's read position becomes a
-- read receipt on Matrix.
pub mod Reported
pub mod Advance
mod Examples
use matrix_teams.Prelude.{
  Bool, true, false, not, ◌&&◌, ◌||◌, Option, none, some, List, [], ◌∷◌, ◌++◌, if◌then◌else◌, ℤ,
  pos, ltb_ℤ, leb_ℤ, Text, text_eq, is_nil, trim_space, equal_fold,
}
use matrix_teams.Model.Message.{normalize_teams_user_id}
use matrix_teams.Model.Horizon.{parse_latest_read_ts}
use matrix_teams.Connector.Tracker.{Time, should_poll_receipts}
use matrix_teams.Connector.Ids.{is_likely_thread_id}
use matrix_teams.Connector.ReactionSync.{self_id}
use matrix_teams.Connector.Events.{receipt, Env, ThreadState, World, portal_key, enqueue}

-- An entry of the API's answer, less the visibility time, which nothing reads.
pub record ConsumptionHorizon : Type 0 where
  pub id : Text
  pub consumption_horizon : Text

is_remote : Text → Text → ConsumptionHorizon → Bool
is_remote self thread_id entry =
    let id = normalize_teams_user_id entry.id in
    not (is_nil id || text_eq id self || equal_fold id thread_id || is_likely_thread_id id)

-- The loop over the entries: the only one that is another user's, if there is exactly one.
pub only_remote :
    Text → Text → Option ConsumptionHorizon → List ConsumptionHorizon → Option ConsumptionHorizon
only_remote self thread_id found [] = found
only_remote self thread_id none (e ∷ es) =
    only_remote self thread_id (if is_remote self thread_id e then some e else none) es
only_remote self thread_id (some f) (e ∷ es) =
    let rest = only_remote self thread_id (some f) es in
    if is_remote self thread_id e then none else rest

-- ConsumptionHorizon.UpsertLastRead
upsert_last_read : Text → Text → ℤ → World → World
upsert_last_read thread_id user ts w = record w {
  horizons = λ t u. if text_eq t thread_id && text_eq u user then some ts else w.horizons t u;
}

-- latestReadTS <= state.LastReadTS
is_old : Option ℤ → ℤ → Bool
is_old none ts = false
is_old (some last) ts = leb_ℤ ts last

-- The end of pollConsumptionHorizons: the receipt is queued first, and its position stored where the
-- table can be written.
queue_receipt : Env → Text → Text → ℤ → Option (Option Text) → World → World
unfolding upsert_last_read
queue_receipt env thread_id user ts none w = w
queue_receipt env thread_id user ts (some target) w =
    let queued = enqueue (receipt (portal_key env thread_id) (trim_space user) ts target) w in
    if env.can_store_horizon thread_id user ts
    then upsert_last_read thread_id user ts queued
    else queued

report_read : Env → ThreadState → Text → Option ℤ → World → World
unfolding queue_receipt is_old
report_read env th user none w = w
report_read env th user (some ts) w =
    let thread_id = trim_space th.thread_id in
    if leb_ℤ ts (pos 0)
    then w
    else if not (env.can_read_horizon thread_id user)
    then w
    else if is_old (w.horizons thread_id user) ts
    then w
    else queue_receipt env thread_id user ts (env.last_sent (self_id env) ts) w

report_remote : Env → ThreadState → Option ConsumptionHorizon → World → World
unfolding report_read
report_remote env th none w = w
report_remote env th (some e) w =
    report_read env th (normalize_teams_user_id e.id) (parse_latest_read_ts e.consumption_horizon) w

report_answer : Env → ThreadState → Option (List ConsumptionHorizon) → World → World
unfolding report_remote only_remote
report_answer env th none w = w
report_answer env th (some entries) w =
    if is_nil (self_id env)
    then w
    else report_remote env th (only_remote (self_id env) (trim_space th.thread_id) none entries) w

-- pollConsumptionHorizons; `answer` is what the API answers, `none` for an error or no answer.
pub poll_consumption_horizons :
    Env → ThreadState → Time → Option (List ConsumptionHorizon) → World → World
unfolding report_answer
poll_consumption_horizons env th now answer w =
    let thread_id = trim_space th.thread_id in
    let (due, tracker') = should_poll_receipts thread_id now w.tracker in
    if is_nil thread_id
    then w
    else if due
    then report_answer env th answer (record w { tracker = tracker' })
    else w
