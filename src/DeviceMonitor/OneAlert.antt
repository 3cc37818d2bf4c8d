-- ===== src/DeviceMonitor/OneAlert.antt =====
-- One alarm for each time that a device goes offline (mes-backend/src/mq/DeviceMonitor.cc).
use mes_cpp.Base.{
  ℕ, ◌+◌, ◌≤◌, ◌≡◌, refl, ap, ◌∙◌, inl, inr, Bool, true, false, not, ◌&&◌, some, List, [], ◌∷◌,
  ◌++◌, String, if◌then◌else◌, arith, ℤ, eqb_ℤ, eq_of_parts, any_row, update_rows, total,
  total-append, Bool-cases, Option-cases,
}
use mes_cpp.DeviceMonitor.{
  Device, Monitor, is_device, can_mark, set_offline, scan, send_alert, mark_offline, nth_pending,
  drop_pending, run_mark, is_among, heartbeat, Event, scans, marks, beats, step, run,
}

-- The rows of a device, those of them that are online, and a device's alarms in a list.
abbrev pub rows : ℤ → List Device → ℕ
rows id ds = total (λ (d : Device). if is_device id d then 1 else 0) ds

abbrev pub online : ℤ → List Device → ℕ
online id ds = total (λ (d : Device). if can_mark id d then 1 else 0) ds

abbrev pub about : ℤ → List ℤ → ℕ
about id as' = total (λ a. if eqb_ℤ a id then 1 else 0) as'

-- A device's alarms, and one more while it is online.
abbrev pub alarms : ℤ → Monitor → ℕ
alarms id s = about id s.alerts + about id s.lost + online id s.devices

-- The heartbeats of a device.
unfoldable pub beats_of : ℤ → List Event → ℕ
beats_of id [] = 0
beats_of id (scans now ∷ es) = beats_of id es
beats_of id (marks n runs queued ∷ es) = beats_of id es
beats_of id (beats now ids ∷ es) = (if is_among id ids then 1 else 0) + beats_of id es

module _ (id : ℤ) where
  online-rows : (ds : List Device) → online id ds ≤ rows id ds
  unfolding total
  online-rows [] = omega arith
  online-rows (d ∷ ds) = ground (arith, online-rows ds)

  online-marked :
      (k : ℤ) (ds : List Device)
      → online id (update_rows (can_mark k) set_offline ds)
        ≡ (if eqb_ℤ k id then 0 else online id ds)
  unfolding update_rows total
  online-marked k [] = ground arith
  online-marked k (d ∷ ds) = ground (arith, online-marked k ds)

  rows-marked :
      (k : ℤ) (ds : List Device) → rows id (update_rows (can_mark k) set_offline ds) ≡ rows id ds
  unfolding update_rows total
  rows-marked k [] = refl
  rows-marked k (d ∷ ds) = ground (arith, rows-marked k ds)

  any_row-online :
      (k : ℤ) (ds : List Device)
      → eqb_ℤ k id ≡ true
      → any_row (can_mark k) ds ≡ true
      → 1 ≤ online id ds
  unfolding any_row total
  any_row-online k [] e h = cc h
  any_row-online k (d ∷ ds) e h = ground (arith, any_row-online k ds)

  among_same : (a : ℤ) (ids : List ℤ) → eqb_ℤ a id ≡ true → is_among a ids ≡ is_among id ids
  among_same a ids e = ap (λ b. is_among b ids) (eq_of_parts a id (ground arith))

  rows-beaten :
      (now : ℕ) (ids : List ℤ) (ds : List Device)
      → rows id (
          update_rows
            (λ (d : Device). is_among d.id ids && not d.deleted)
            (λ d. record d { status = 1; last_heartbeat_at = some now })
            ds)
        ≡ rows id ds
  unfolding update_rows total
  rows-beaten now ids [] = refl
  rows-beaten now ids (d ∷ ds) = ground (arith, rows-beaten now ids ds)

  -- A heartbeat takes no device offline, and touches no device that it is not of.
  online-beaten :
      (now : ℕ) (ids : List ℤ) (ds : List Device)
      → (online id ds
          ≤ online id (
              update_rows
                (λ (d : Device). is_among d.id ids && not d.deleted)
                (λ d. record d { status = 1; last_heartbeat_at = some now })
                ds))
        × (is_among id ids ≡ false
            → online id (
                update_rows
                  (λ (d : Device). is_among d.id ids && not d.deleted)
                  (λ d. record d { status = 1; last_heartbeat_at = some now })
                  ds)
              ≡ online id ds)
  unfolding update_rows total
  online-beaten now ids [] = (omega arith, λ h. refl)
  online-beaten now ids (d ∷ ds) =
      let (more, same) = online-beaten now ids ds in
      (ground (arith, more), λ h. ground (arith, same h, among_same d.id ids))

  about-append :
      (as' : List ℤ) (k : ℤ)
      → about id (as' ++ k ∷ []) ≡ about id as' + (if eqb_ℤ k id then 1 else 0)
  unfolding total
  about-append as' k = total-append (λ a. if eqb_ℤ a id then 1 else 0) as' (k ∷ []) ∙ omega arith

  -- The alarm that is sent stands for the row that goes offline.
  alarm_for_row :
      (k : ℤ) (ds : List Device)
      → rows id ds ≤ 1
      → any_row (can_mark k) ds ≡ true
      → (if eqb_ℤ k id then 1 else 0) + online id (update_rows (can_mark k) set_offline ds)
        ≡ online id ds
  alarm_for_row k ds one hit =
      ground (arith, online-marked k ds, online-rows ds, any_row-online k ds)

  mark_offline-alarms :
      (k : ℤ) (queued : Bool) (s : Monitor)
      → rows id s.devices ≤ 1
      → (alarms id (mark_offline k queued s) ≡ alarms id s)
        × (rows id (mark_offline k queued s).devices ≡ rows id s.devices)
  unfolding mark_offline
  mark_offline-alarms k queued s one = elim (Bool-cases (any_row (can_mark k) s.devices)) [
    | inr miss ↦ rw miss (refl, refl)
    | inl hit ↦ rw hit (sent queued (alarm_for_row k s.devices one hit), kept queued)
  ]
    where
      marked : Monitor
      marked = record s { devices = update_rows (can_mark k) set_offline s.devices }

      kept : (q : Bool) → rows id (send_alert k q marked).devices ≡ rows id s.devices
      kept true = rows-marked k s.devices
      kept false = rows-marked k s.devices

      sent :
          (q : Bool)
          → (if eqb_ℤ k id then 1 else 0)
              + online id (update_rows (can_mark k) set_offline s.devices)
            ≡ online id s.devices
          → alarms id (send_alert k q marked) ≡ alarms id s
      sent true e = omega (arith, e, about-append s.alerts k)
      sent false e = omega (arith, e, about-append s.lost k)

  run_mark-alarms :
      (n : ℕ) (runs queued : Bool) (s : Monitor)
      → rows id s.devices ≤ 1
      → (alarms id (run_mark n runs queued s) ≡ alarms id s)
        × (rows id (run_mark n runs queued s).devices ≡ rows id s.devices)
  unfolding run_mark
  run_mark-alarms n runs queued s one = elim (Option-cases (nth_pending n s.pending)) [
    | inl nothing ↦ rw (nothing, run_mark) (refl, refl)
    | inr (p, found) ↦ rw (found, run_mark) (taken p runs)
  ]
    where
      rest : Monitor
      rest = record s { pending = drop_pending n s.pending }

      taken :
          (p : ℤ × String) (b : Bool)
          → (alarms id (if b then mark_offline p.0 queued rest else rest) ≡ alarms id s)
            × (rows id (if b then mark_offline p.0 queued rest else rest).devices
                ≡ rows id s.devices)
      taken p true = mark_offline-alarms p.0 queued rest one
      taken p false = (refl, refl)

  step-alarms :
      (s : Monitor) (e : Event)
      → rows id s.devices ≤ 1
      → (alarms id s ≤ alarms id (step s e))
        × (alarms id (step s e) ≤ alarms id s + beats_of id (e ∷ []))
        × (rows id (step s e).devices ≡ rows id s.devices)
  unfolding step beats_of scan heartbeat
  step-alarms s (scans now) one = (omega arith, omega arith, refl)
  step-alarms s (marks n runs queued) one =
      let (same, kept) = run_mark-alarms n runs queued s one in
      (omega (arith, same), omega (arith, same), kept)
  step-alarms s (beats now ids) one =
      let (more, same) = online-beaten now ids s.devices in
      let kept = rows-beaten now ids s.devices in
      (
        omega (arith, more),
        ground (arith, same, more, online-rows (step s (beats now ids)).devices, kept, one),
        kept,
      )

  beats_of-cons :
      (e : Event) (es : List Event) → beats_of id (e ∷ es) ≡ beats_of id (e ∷ []) + beats_of id es
  unfolding beats_of
  beats_of-cons (scans now) es = omega arith
  beats_of-cons (marks n runs queued) es = omega arith
  beats_of-cons (beats now ids) es = omega arith

  -- A device with at most one row: through any scans, UPDATE statements and heartbeats, of any instances
  -- and in any order, its OFFLINE alarms, queued or lost, and one more while it is online, never get
  -- fewer, and get more by at most one for each heartbeat.
  pub run-alarms :
      (s : Monitor) (es : List Event)
      → rows id s.devices ≤ 1
      → (alarms id s ≤ alarms id (run s es)) × (alarms id (run s es) ≤ alarms id s + beats_of id es)
  unfolding run beats_of
  run-alarms s [] one = (omega arith, omega arith)
  run-alarms s (e ∷ es) one =
      let (low, high, kept) = step-alarms s e one in
      let (low_rest, high_rest) = run-alarms (step s e) es (omega (arith, kept)) in
      (omega (arith, low, low_rest), omega (arith, high, high_rest, beats_of-cons e es))
