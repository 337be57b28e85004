-- ===== src/Connector/ReadHorizons/Advance.antt =====
-- Read positions (pkg/connector/handleteams.go) only move forward.
use matrix_teams.Prelude.{
  ◌≡◌, ◌≢◌, refl, sym, subst, true, false, Option, none, some, List, inl, inr, arith, ℤ, pos, ◌<ℤ◌,
  leb_ℤ, Text, is_nil, Bool-cases, Option-cases, text_eq_refl, trim_space,
}
use matrix_teams.Model.Message.{normalize_teams_user_id}
use matrix_teams.Model.Horizon.{parse_latest_read_ts}
use matrix_teams.Connector.Tracker.{Tracker, Time, should_poll_receipts}
use matrix_teams.Connector.ReactionSync.{self_id}
use matrix_teams.Connector.Events.{Env, ThreadState, World}
use matrix_teams.Connector.ReadHorizons.{
  ConsumptionHorizon, only_remote, queue_receipt, report_read, report_remote, report_answer,
  poll_consumption_horizons, is_old, upsert_last_read,
}
use matrix_teams.Connector.ReadHorizons.Reported.{
  IsBefore, IsStored, IsRead, HasNoNews, Reported, unchanged, advanced,
}

is_old-IsBefore : (o : Option ℤ) (ts : ℤ) → is_old o ts ≡ false → IsBefore o ts
unfolding is_old
is_old-IsBefore none ts h = tt
is_old-IsBefore (some last) ts h = ground arith

is_old-IsAfter : (o : Option ℤ) (ts : ℤ) → is_old o ts ≡ true → IsBefore o ts → ⊥
unfolding is_old
is_old-IsAfter none ts h b = cc
is_old-IsAfter (some last) ts h b = ground arith

upsert_last_read-IsStored :
    (thread_id user : Text) (ts : ℤ) (w : World) (t : Tracker)
    → IsStored thread_id user ts w (upsert_last_read thread_id user ts (record w { tracker = t }))
unfolding upsert_last_read
upsert_last_read-IsStored thread_id user ts w t =
    (rw (text_eq_refl thread_id, text_eq_refl user) refl, λ t u h. rw h refl)

module _ (env : Env) (th : ThreadState) (now : Time) (answer : Option (List ConsumptionHorizon))
    (w : World) where
  -- the thread's identifier, as the poll uses it
  abbrev id : Text
  id = trim_space th.thread_id

  -- Why the position `o` of an entry is not reported.
  abbrev IsRefused : ConsumptionHorizon → Option ℤ → Type 0
  IsRefused e o =
      (ts : ℤ)
      → o ≡ some ts
      → pos 0 <ℤ ts
      → env.can_read_horizon id (normalize_teams_user_id e.id) ≡ true
      → IsBefore (w.horizons id (normalize_teams_user_id e.id)) ts
      → (target : Option Text) → env.last_sent (self_id env) ts ≢ some target

  refused-HasNoNews :
      (e : ConsumptionHorizon)
      → ((f : ConsumptionHorizon) (ts : ℤ) → IsRead env id answer f ts → e ≡ f)
      → IsRefused e (parse_latest_read_ts e.consumption_horizon)
      → HasNoNews env th answer w
  refused-HasNoNews e only refused f ts r =
      subst (λ (x : ConsumptionHorizon). IsRefused x (parse_latest_read_ts x.consumption_horizon))
        (only f ts r) refused ts (position answer r)
    where
      position :
          (a : Option (List ConsumptionHorizon))
          → IsRead env id a f ts
          → parse_latest_read_ts f.consumption_horizon ≡ some ts
      position none r = absurd r
      position (some entries) (k, p) = p

  module _ (t : Tracker) where
    -- the state with the tracker of the poll
    abbrev polled : World
    polled = record w { tracker = t }

    queue_receipt-Reported :
        (e : ConsumptionHorizon) (ts : ℤ)
        → IsRead env id answer e ts
        → pos 0 <ℤ ts
        → IsBefore (w.horizons id (normalize_teams_user_id e.id)) ts
        → (target : Option Text) → env.last_sent (self_id env) ts ≡ some target
        → Reported env th now answer w
            (queue_receipt env id (normalize_teams_user_id e.id) ts (some target) polled)
    unfolding queue_receipt upsert_last_read
    queue_receipt-Reported e ts r p b target q =
        elim (Bool-cases (env.can_store_horizon id (normalize_teams_user_id e.id) ts)) [
          | inl s ↦ rw s (
              advanced e ts r p b (target, q, refl)
                (inl (upsert_last_read-IsStored id (normalize_teams_user_id e.id) ts w t)))
          | inr s ↦ rw s (advanced e ts r p b (target, q, refl) (inr (s, refl)))
        ]

    report_read-Reported :
        (e : ConsumptionHorizon) (o : Option ℤ)
        → parse_latest_read_ts e.consumption_horizon ≡ o
        → ((ts : ℤ) → o ≡ some ts → IsRead env id answer e ts)
        → (IsRefused e o → HasNoNews env th answer w)
        → Reported env th now answer w (report_read env th (normalize_teams_user_id e.id) o polled)
    unfolding report_read
    report_read-Reported e none q r n =
        unchanged (inr (inr (inr (n (λ ts k. absurd (cc)))))) refl refl
    report_read-Reported e (some ts) q r n =
        let user = normalize_teams_user_id e.id in
        elim (Bool-cases (leb_ℤ ts (pos 0))) [
          | inl c ↦
              rw c (unchanged (inr (inr (inr (n (λ u k p. absurd (ground arith)))))) refl refl)
          | inr c ↦ elim (Bool-cases (env.can_read_horizon id user)) [
            | inr d ↦ rw (c, d) (unchanged (inr (inr (inr (n (λ u k p g. absurd (cc)))))) refl refl)
            | inl d ↦ elim (Bool-cases (is_old (w.horizons id user) ts)) [
              | inl old ↦
                  rw (c, d, old)
                    (unchanged
                      (inr (
                        inr (
                          inr (
                            n (λ u k p g b. absurd (
                              is_old-IsAfter (w.horizons id user) ts old
                                (subst (IsBefore (w.horizons id user)) (cc k) b)))))))
                      refl refl)
              | inr new ↦ elim (Option-cases (env.last_sent (self_id env) ts)) [
                | inl failed ↦
                    rw (c, d, new, failed)
                      (unchanged
                        (inr (
                          inr (
                            inr (
                              n (λ u k p g b target s.
                                (let same : ts ≡ u = cc k in absurd (cc (failed, s, same))))))))
                        refl refl)
                | inr (target, sent) ↦
                    rw (c, d, new, sent)
                      (queue_receipt-Reported e ts (r ts refl) (ground arith)
                        (is_old-IsBefore _ ts new) target sent)
              ]
            ]
          ]
        ]

  report_remote-Reported :
      (t : Tracker) (entries : List ConsumptionHorizon)
      → answer ≡ some entries
      → (o : Option ConsumptionHorizon) → only_remote (self_id env) id none entries ≡ o
      → Reported env th now answer w (report_remote env th o (record w { tracker = t }))
  unfolding report_remote
  report_remote-Reported t entries a none h =
      unchanged
        (inr (
          inr
            (inr (subst (λ x. HasNoNews env th x w) (sym a) (λ f ts (k, p). absurd (cc (h, k)))))))
        refl refl
  report_remote-Reported t entries a (some e) h =
      report_read-Reported t e (parse_latest_read_ts e.consumption_horizon) refl
        (λ ts k. subst (λ x. IsRead env id x e ts) (sym a) (h, k))
        (refused-HasNoNews e (λ f ts r. only (subst (λ x. IsRead env id x f ts) a r)))
    where
      only : {f : ConsumptionHorizon} {ts : ℤ} → IsRead env id (some entries) f ts → e ≡ f
      only (k, p) = cc (h, k)

report_answer-Reported :
    (env : Env) (th : ThreadState) (now : Time) (answer : Option (List ConsumptionHorizon))
    (w : World) (t : Tracker)
    → Reported env th now answer w (report_answer env th answer (record w { tracker = t }))
unfolding report_answer
report_answer-Reported env th now none w t =
    unchanged (inr (inr (inr (λ e ts r. absurd r)))) refl refl
report_answer-Reported env th now (some entries) w t = elim (Bool-cases (is_nil (self_id env))) [
  | inl e ↦ rw e (unchanged (inr (inr (inl e))) refl refl)
  | inr e ↦ rw e (
      report_remote-Reported env th now (some entries) w t entries refl
        (only_remote (self_id env) (trim_space th.thread_id) none entries) refl)
]

pub poll_consumption_horizons-Reported :
    (env : Env) (th : ThreadState) (now : Time) (answer : Option (List ConsumptionHorizon))
    (w : World)
    → Reported env th now answer w (poll_consumption_horizons env th now answer w)
unfolding poll_consumption_horizons
poll_consumption_horizons-Reported env th now answer w =
    elim (Bool-cases (is_nil (trim_space th.thread_id))) [
      | inl e ↦ rw e (unchanged (inl e) refl refl)
      | inr e ↦ elim (Bool-cases (should_poll_receipts (trim_space th.thread_id) now w.tracker).0) [
        | inl d ↦
            rw (e, d)
              (report_answer-Reported env th now answer w
                (should_poll_receipts (trim_space th.thread_id) now w.tracker).1)
        | inr d ↦ rw (e, d) (unchanged (inr (inl d)) refl refl)
      ]
    ]
