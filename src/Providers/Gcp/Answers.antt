-- ===== src/Providers/Gcp/Answers.antt =====
-- `GcpCdnProvider.purge` of src/mirror_mirage/providers/gcp.py, from what its calls got to its result.
use mirror_mirage.Prelude.{ℕ, ◌≡◌, ◌≤◌, ◌<◌, true, false, In}
use mirror_mirage.Text.{Text}
use mirror_mirage.Worker.{PurgeResult}
use mirror_mirage.Providers.{
  Reply, status, http_error, Token, token, auth_error, retryable_status, gcp_purge_one,
}

-- GCP took the call.
abbrev pub Accepted : Token × Reply → Type 0
Accepted (token t, status code) = (200 ≤ code) × (code < 300)
Accepted (token t, http_error e) = ⊥
Accepted (auth_error e, reply) = ⊥

-- A fault that may pass: of the connection, or one of the statuses for it.
abbrev pub Transient : Token × Reply → Type 0
Transient (token t, status code) = In code retryable_status
Transient (token t, http_error e) = Unit
Transient (auth_error e, reply) = ⊥

-- There was no token, or the status is neither a success nor one for a fault that may pass.
abbrev pub Refused : Token × Reply → Type 0
Refused (token t, status code) = (¬ ((200 ≤ code) × (code < 300))) × ¬ In code retryable_status
Refused (token t, http_error e) = ⊥
Refused (auth_error e, reply) = Unit

abbrev result : Token × Reply → PurgeResult
result c = gcp_purge_one c.0 c.1

module _ (calls : ℕ → Token × Reply) where
  -- The result of `n` calls says what became of them.
  pub data Answered (n : ℕ) (r : PurgeResult) : Type 0 where
    all_accepted : r.ok ≡ true → ((i : ℕ) → i < n → Accepted (calls i)) → Answered n r
    one_refused :
        r.ok ≡ false → r.retryable ≡ false → (i : ℕ) → i < n → Refused (calls i) → Answered n r
    only_transient :
        r.ok ≡ false
        → r.retryable ≡ true
        → (i : ℕ) → i < n
        → Transient (calls i)
        → ((j : ℕ) → j < n → ¬ Refused (calls j))
        → Answered n r

  abbrev call : ℕ → Text → PurgeResult
  call i url = result (calls i)
