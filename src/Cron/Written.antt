-- ===== src/Cron/Written.antt =====
-- background/crontabfile.go: what the editor keeps of a file that it reads and writes.
use jacred_go.Base.{ℕ, ◌+◌, ◌≡◌, Bool, List, [], ◌∷◌, Option, none, some, Str}
use jacred_go.Base.Trim.{trim_space}
use jacred_go.Cron.Field.{done, >>=-eq-done, done-injective}
use jacred_go.Cron.JobLine.{Job, parse_job_line, leading_space}
use jacred_go.Cron.Crontab.{
  Entry, text, job, candidate, entry_of, body_entry, parse_line, parse_entries,
}

-- The entry of a line: its text as it stands, or a job that the line holds, behind a comment sign or not.
pub data Stands (n : ℕ) (raw : Str) : Entry → Type 0 where
  as_text : Stands n raw (text n raw)
  as_job :
      (j : Job)
      → parse_job_line (candidate (trim_space raw)).0 ≡ done (some j)
      → Stands n raw (job n j (candidate (trim_space raw)).1 (leading_space raw))

-- One entry for each line, in order, from line `n` on.
pub data Covers : ℕ → List Str → List Entry → Type 0 where
  covers_none : {n : ℕ} → Covers n [] []
  covers :
      {n : ℕ} {raw : Str} {rest : List Str} {e : Entry} {es : List Entry}
      → Stands n raw e
      → Covers (n + 1) rest es
      → Covers n (raw ∷ rest) (e ∷ es)

entry-Stands :
    (n : ℕ) (raw : Str) (j : Option Job) (e : Entry × Bool)
    → parse_job_line (candidate (trim_space raw)).0 ≡ done j
    → done (entry_of n raw (trim_space raw) (candidate (trim_space raw)) j) ≡ done e
    → Stands n raw e.0
entry-Stands n raw none e h k = rw (← (done-injective _ _ k)) as_text
entry-Stands n raw (some j) e h k = rw (← (done-injective _ _ k)) (as_job j h)

-- A file that is read through has one entry for each line, in order and with the line's number: the
-- line as it stands, or a job that the line, without a comment sign, parses as.
pub parse_entries-Covers :
    (n : ℕ) (lines : List Str) (r : List Entry × List ℕ)
    → parse_entries n lines ≡ done r
    → Covers n lines r.0
unfolding parse_entries parse_line
parse_entries-Covers n [] r h = rw (← (done-injective _ _ h)) covers_none
parse_entries-Covers n (raw ∷ rest) r h =
    let (e, ee, g) = >>=-eq-done (body_entry n raw (trim_space raw)) _ h in
    let (r2, e2, k) = >>=-eq-done (parse_entries (n + 1) rest) _ g in
    let (j, ej, i) = >>=-eq-done (parse_job_line (candidate (trim_space raw)).0) _ ee in
    rw (← (done-injective _ _ k))
      (covers (entry-Stands n raw j e ej i) (parse_entries-Covers (n + 1) rest r2 e2))
