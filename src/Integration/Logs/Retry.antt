-- ===== src/Integration/Logs/Retry.antt =====
-- What a retry does to the log (mes-backend/src/services/IntegrationService.cc).
use mes_cpp.Base.{
  true, suc, if◌then◌else◌, ◌⊎◌, ℕ, ◌≡◌, refl, ap, sym, subst, ◌∙◌, ◌≢◌, inl, inr, Bool, false,
  Option, some, List, [], ◌∷◌, String, arith, Bool-cases, find_row, update_rows, find_row-holds,
  codes, ◌==◌,
}
use mes_cpp.Breaker.{Limits, Breaker}
use mes_cpp.Audit.{bytes_eq}
use mes_cpp.Integration.Urls.{parse_method_path, post_url}
use mes_cpp.Integration.Urls.Decode.{parse-post_url}
use mes_cpp.Integration.Call.{
  ExtResult, ApiConfig, Attempt, Request, request, post, Called, call_external,
}
use mes_cpp.Integration.Logs.{
  SyncLog, ok, err, is_log, set_pending, set_retried, retry_request, Retried, copies, retry_ended,
  retry_failed, retry_configured, retry_row, retry_log, method_of,
}

-- Two UPDATEs of the same rows are one.
update_rows-update_rows :
    {A : Type 0} (p : A → Bool) (f g : A → A)
    → ((x : A) → p (g x) ≡ p x)
    → (xs : List A) → update_rows p f (update_rows p g xs) ≡ update_rows p (λ x. f (g x)) xs
unfolding update_rows
update_rows-update_rows p f g keeps [] = refl
update_rows-update_rows p f g keeps (x ∷ xs) = elim (Bool-cases (p x)) [
  | inl e ↦ rw (e, keeps x, e) (ap (λ ys. f (g x) ∷ ys) (update_rows-update_rows p f g keeps xs))
  | inr e ↦ rw (e, e) (ap (λ ys. x ∷ ys) (update_rows-update_rows p f g keeps xs))
]

-- A row of the log before a retry and after it: what the call gave stands in the columns of the result, the
-- status says whether the call was a success, there is one more retry, and the other columns are as before.
pub record After (r : ExtResult) (x y : SyncLog) : Type 0 where
  pub status : ((r.ok ≡ true) × (y.status ≡ 1)) ⊎ ((r.ok ≡ false) × (y.status ≡ 0))
  pub answer :
      (y.http_status ≡ r.http_status)
      × (y.duration_ms ≡ r.duration_ms)
      × (y.response_body ≡ r.body)
      × (y.error_msg ≡ r.err)
  pub retries : y.retry_count ≡ suc x.retry_count
  pub system : (y.system_type ≡ x.system_type) × (y.sync_direction ≡ x.sync_direction)
  pub business : (y.sync_type ≡ x.sync_type) × (y.business_id ≡ x.business_id)
  pub request : (y.request_url ≡ x.request_url) × (y.request_body ≡ x.request_body)

-- Row by row: those of the number are after the retry, and the others are the same.
abbrev pub Written : ℕ → ExtResult → List SyncLog → List SyncLog → Type 0
Written id r [] ys = ys ≡ []
Written id r (x ∷ xs) [] = ⊥
Written id r (x ∷ xs) (y ∷ ys) =
    (y.id ≡ x.id) × (((x.id ≡ id) × After r x y) ⊎ ((x.id ≢ id) × (y ≡ x))) × Written id r xs ys

-- The end of a retry by the result of its call.
pub record Answers (id : ℕ) (row : SyncLog) (q : Request) (rows : List SyncLog) (c : Called)
    (r : Retried) : Type 0 where
  pub written : Written id c.result rows r.rows
  pub sent : r.sent ≡ copies c.sent q
  pub breaker : r.breaker ≡ c.breaker
  pub answer :
      ((c.result.ok ≡ true) × (r.result ≡ ok id))
      ⊎ ((c.result.ok ≡ false) × (r.result ≡ err (retry_failed row.system_type c.result.err)))

set_retried-After : (r : ExtResult) (x : SyncLog) → After r x (set_retried r (set_pending x))
set_retried-After r x = record {
  status = elim (Bool-cases r.ok) [
    | inl e ↦ inl (e, ap (λ b. if b then 1 else 0) e)
    | inr e ↦ inr (e, ap (λ b. if b then 1 else 0) e)
  ];
  answer = (refl, refl, refl, refl);
  retries = omega arith;
  system = (refl, refl);
  business = (refl, refl);
  request = (refl, refl);
}

rows-Written :
    (id : ℕ) (r : ExtResult) (rows : List SyncLog)
    → Written id r rows (update_rows (is_log id) (λ x. set_retried r (set_pending x)) rows)
unfolding update_rows
rows-Written id r [] = refl
rows-Written id r (x ∷ xs) = elim (Bool-cases (x.id == id)) [
  | inl e ↦ rw e (refl, inl (ground (arith, e), set_retried-After r x), rows-Written id r xs)
  | inr e ↦ rw e (refl, inr ((λ h. ground (arith, e, h)), refl), rows-Written id r xs)
]

retry_ended-Answers :
    (id : ℕ) (row : SyncLog) (q : Request) (rows : List SyncLog) (c : Called)
    → row.id ≡ id
    → Answers id row q rows c
        (retry_ended row.id row.system_type q (update_rows (is_log row.id) set_pending rows) c)
unfolding retry_ended
retry_ended-Answers id row q rows c e = record {
  written =
      subst (Written id c.result rows)
        (sym (
          ap
            (λ i.
              update_rows (is_log i) (set_retried c.result)
                (update_rows (is_log i) set_pending rows))
            e
          ∙ update_rows-update_rows (is_log id) (set_retried c.result) set_pending (λ x. refl)
              rows))
        (rows-Written id c.result rows);
  sent = refl;
  breaker = refl;
  answer = elim (Bool-cases c.result.ok) [
    | inl k ↦ inl (k, ground (arith, e, k))
    | inr k ↦ inr (k, ground (arith, k))
  ];
}

not_one : (n : ℕ) → n ≢ 1 → (n == 1) ≡ false
not_one n h = ground (arith, h)

-- A row of a call with POST is sent again as it was.
retry_request_lem :
    (parse : String → Option String) (c : ApiConfig) (row : SyncLog) (path : List ℕ)
    → row.request_url ≡ post_url path
    → parse row.request_body ≡ some row.request_body
    → retry_request parse c (parse_method_path row.request_url) row
      ≡ request c post path (some row.request_body)
unfolding method_of codes bytes_eq
retry_request_lem parse c row path u b =
    ap (λ url. retry_request parse c (parse_method_path url) row) u
    ∙ ap (λ parts. retry_request parse c parts row) (parse-post_url path)
    ∙ ap (λ t. request c post path t) b

retry_configured-Answers :
    (l : Limits) (now : ℕ) (send : ℕ → Attempt) (parse : String → Option String) (row : SyncLog)
    (b : Breaker) (rows : List SyncLog) (c : ApiConfig) (id : ℕ) (path : List ℕ)
    → row.id ≡ id
    → row.request_url ≡ post_url path
    → parse row.request_body ≡ some row.request_body
    → Answers id row
        (request c post path (some row.request_body))
        rows
        (call_external l now send c b)
        (retry_configured l now send parse row b rows (some c))
unfolding retry_configured
retry_configured-Answers l now send parse row b rows c id path e u p =
    subst
      (λ q.
        Answers id row q rows (call_external l now send c b)
          (retry_configured l now send parse row b rows (some c)))
      (retry_request_lem parse c row path u p)
      (retry_ended-Answers id row (retry_request parse c (parse_method_path row.request_url) row)
        rows (call_external l now send c b) e)

-- A retry of a row of a call with POST that is not marked as successful, whose body the JSON library
-- reads and gives back as it is, where the system of the row is configured: the same method, path and
-- body are sent again, as often as the call sends. Each row with the number has the HTTP status, the
-- duration, the body and the error of the call, one more retry, the status 1 where the call succeeded and
-- 0 where it did not, and its other columns as before; no other row changes. The answer is a success
-- where the call succeeded, and its error where it did not.
pub retry_log-Answers :
    (l : Limits) (now : ℕ) (send : ℕ → Attempt) (parse : String → Option String)
    (load : String → Option ApiConfig) (b : Breaker) (id : ℕ) (rows : List SyncLog) (row : SyncLog)
    (c : ApiConfig) (path : List ℕ)
    → find_row (is_log id) rows ≡ some row
    → row.status ≢ 1
    → load row.system_type ≡ some c
    → row.request_url ≡ post_url path
    → parse row.request_body ≡ some row.request_body
    → Answers id row
        (request c post path (some row.request_body))
        rows
        (call_external l now send c b)
        (retry_log l now send parse load b id rows)
unfolding retry_log retry_row
retry_log-Answers l now send parse load b id rows row c path f s k u p =
    let called = call_external l now send c b in
    let sent = request c post path (some row.request_body) in
    let first =
      retry_configured-Answers l now send parse row b rows c id path
        (ground (arith, find_row-holds (is_log id) rows row f)) u p in
    subst (λ o. Answers id row sent rows called (retry_row l now send parse load b rows o)) (sym f)
      (rw (not_one row.status s) (
        subst
          (λ o. Answers id row sent rows called (retry_configured l now send parse row b rows o))
          (sym k) first))
