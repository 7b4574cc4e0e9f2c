-- ===== src/Tlm/Barred.antt =====
-- Slots that are barred are lost to the table.
use zonal_zero_trust_auth.Base.{
  ℕ, ◌+◌, ◌≤◌, ◌<◌, ◌≡◌, sym, ◌∙◌, List, [], ◌∷◌, some, count_if, count_if-exclusive, count_if-pos,
  arith,
}
use zonal_zero_trust_auth.Platform.{ClientId, IsClientId}
use zonal_zero_trust_auth.Tlm.{
  TokenLifecycleManager, max_active_sessions, max_anomaly_count, empty_slot, find_slot_by_client_id,
  get_active_session_count,
}
use zonal_zero_trust_auth.Tlm.Invariant.{IsValid}
use zonal_zero_trust_auth.Tlm.Invariant.Find.{found, is_locked_out-some}
use zonal_zero_trust_auth.Tlm.Register.Stages.{order_of}
use zonal_zero_trust_auth.Tlm.Lockout.{SlotKept, SlotKept-stable, Keeps}
use zonal_zero_trust_auth.Tlm.Slotwise.{Slotwise-refl, Slotwise-trans}
use zonal_zero_trust_auth.Tlm.Revoke.{
  report_anomalies, report_anomalies-Reported, report_anomalies-is_locked_out,
}
use zonal_zero_trust_auth.Tlm.History.{
  Call, AllTyped, step, run, step-Keeps, step-IsValid, run-IsValid,
}

run-Keeps :
    (m : TokenLifecycleManager) (cs : List Call) → AllTyped cs → IsValid m → Keeps m (run m cs)
unfolding run
run-Keeps m [] t v = Slotwise-refl SlotKept SlotKept-stable m
run-Keeps m (c ∷ cs) t v =
    Slotwise-trans SlotKept SlotKept-stable m (step m c) (run (step m c) cs) (step-Keeps m c t.0 v)
      (run-Keeps (step m c) cs t.1 (step-IsValid m c t.0 v))

-- The live sessions after a history and the slots barred before it share the table.
run-get_active_session_count :
    (m : TokenLifecycleManager) (cs : List Call)
    → AllTyped cs
    → IsValid m
    → get_active_session_count (run m cs) + count_if (λ s. s.is_locked_out) m.session_table
      ≤ max_active_sessions
unfolding get_active_session_count
run-get_active_session_count m cs t v =
    let n = run m cs in
    let w = run-IsValid m cs t v in
    let keeps = run-Keeps m cs t v in
    let share =
      count_if-exclusive (λ s. s.is_active) (λ s. s.is_locked_out) empty_slot m.session_table
        n.session_table (w.table.size ∙ sym v.table.size)
        (λ j h l. (w.table.slots j).idle ((keeps j (omega (arith, v.table.size)) l).0)) in
    omega (arith, share, v.table.size)

-- Three anomalies in a row cost the table a slot for good. Take a valid manager and an identifier that
-- it finds in its table, that of a live client or not, the all-zero identifier of a slot that no client
-- ever held included. After three to 255 anomalies reported for it in a row by RevokeToken, and any
-- history of calls after them, at most seven sessions are live.
pub run-report_anomalies :
    (m : TokenLifecycleManager)
    → IsValid m
    → (x : ClientId) → IsClientId x
    → (idx : ℕ) → find_slot_by_client_id m x ≡ some idx
    → (k : ℕ) → max_anomaly_count ≤ k
    → k ≤ 255
    → (cs : List Call) → AllTyped cs
    → get_active_session_count (run (report_anomalies m x k) cs) < max_active_sessions
run-report_anomalies m v x hx idx e k low high cs t =
    let r = report_anomalies-Reported m v x hx idx e k high in
    let n = report_anomalies m x k in
    let (inside, own, _) = found n (order_of n) r.valid.table x idx hx r.at_idx in
    let barred =
      sym (is_locked_out-some n x idx r.at_idx)
      ∙ report_anomalies-is_locked_out m v x hx idx e k low high in
    let lost =
      count_if-pos (λ s. s.is_locked_out) empty_slot n.session_table idx
        (omega (arith, inside, r.valid.table.size)) barred in
    omega (arith, lost, run-get_active_session_count n cs t r.valid)
