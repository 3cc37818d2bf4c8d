-- ===== src/Audit/Kept.antt =====
-- What becomes of the entries of the audit log (mes-backend/src/middlewares/CrossCutting.cc).
use mes_cpp.Base.{
  ℕ, ◌≡◌, refl, ap, sym, ◌∙◌, inl, inr, List, [], ◌∷◌, ◌++◌, if◌then◌else◌, Bool-cases,
}
use mes_cpp.Audit.{
  Answered, AuditEntry, AuditLog, auditable, enqueue, flush, entry_of, record_audit,
}
use mes_cpp.Audit.Mask.{JsonTrees}

-- A request is answered, at a time, or the second's flush comes.
pub data Event : Type 0 where
  answers : ℕ → Answered → Event
  flushes : Event

module _ (lib : JsonTrees) where
  unfoldable pub step : AuditLog → Event → AuditLog
  step log (answers now r) = record_audit lib now r log
  step log flushes = flush log

  unfoldable pub run : AuditLog → List Event → AuditLog
  run log [] = log
  run log (e ∷ es) = run (step log e) es

  -- The entries of the requests that are audited, in order.
  unfoldable pub entries : List Event → List AuditEntry
  entries [] = []
  entries (flushes ∷ es) = entries es
  entries (answers now r ∷ es) =
      let rest = entries es in if auditable r.path r.method then entry_of lib now r ∷ rest else rest

  append_assoc : (xs ys zs : List AuditEntry) → (xs ++ ys) ++ zs ≡ xs ++ (ys ++ zs)
  append_assoc [] ys zs = refl
  append_assoc (x ∷ xs) ys zs = ap (λ us. x ∷ us) (append_assoc xs ys zs)

  append_nil : (xs : List AuditEntry) → xs ++ [] ≡ xs
  append_nil [] = refl
  append_nil (x ∷ xs) = ap (λ us. x ∷ us) (append_nil xs)

  step-entries :
      (log : AuditLog) (e : Event)
      → (step log e).inserted ++ (step log e).buffer
        ≡ (log.inserted ++ log.buffer) ++ entries (e ∷ [])
  unfolding step entries record_audit enqueue flush
  step-entries log flushes = refl
  step-entries log (answers now r) = elim (Bool-cases (auditable r.path r.method)) [
    | inl audited ↦
        rw audited (sym (append_assoc log.inserted log.buffer (entry_of lib now r ∷ [])))
    | inr other ↦ rw other (sym (append_nil (log.inserted ++ log.buffer)))
  ]

  entries-cons : (e : Event) (es : List Event) → entries (e ∷ es) ≡ entries (e ∷ []) ++ entries es
  unfolding entries
  entries-cons flushes es = refl
  entries-cons (answers now r) es = elim (Bool-cases (auditable r.path r.method)) [
    | inl audited ↦ rw audited refl
    | inr other ↦ rw other refl
  ]

  -- Through any answers and flushes, what was sent to the database and what waits is in all what it was
  -- before, and after it the entry of each request that is audited, once and in order.
  pub run-entries :
      (log : AuditLog) (es : List Event)
      → (run log es).inserted ++ (run log es).buffer ≡ (log.inserted ++ log.buffer) ++ entries es
  unfolding run entries
  run-entries log [] = sym (append_nil (log.inserted ++ log.buffer))
  run-entries log (e ∷ es) =
      run-entries (step log e) es
      ∙ ap (λ xs. xs ++ entries es) (step-entries log e)
      ∙ append_assoc (log.inserted ++ log.buffer) (entries (e ∷ [])) (entries es)
      ∙ ap (λ xs. (log.inserted ++ log.buffer) ++ xs) (sym (entries-cons e es))
