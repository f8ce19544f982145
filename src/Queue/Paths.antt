-- ===== src/Queue/Paths.antt =====
-- The paths of the queue: jobs of different statuses or names have different files, and the file of
-- a job is never a temporary one.
use mathlib.Core.List.{append_assoc}
use yafe.Prelude.{◌≡◌, ◌≢◌, true, ap, ◌∙◌, sym, [], ◌∷◌, ◌++◌, arith}
use yafe.Text.{Text, codes, has_suffix}
use yafe.Text.Laws.{append_cancel_left, suffixes_differ, has_suffix_split}
use yafe.Disk.{temporary}
use yafe.Job.{JobStatus, pending, running, done, failed, status_text, json_suffix}
use yafe.Queue.{FileQueue, job_path, log_file}

status_text-injective : (a b : JobStatus) → status_text a ≡ status_text b → a ≡ b
status_text-injective a b e = ground arith

module _ {C : Type 0} (q : FileQueue C) where
  pub statuses_differ : (a b : JobStatus) (m n : Text) → a ≢ b → job_path q a m ≢ job_path q b n
  statuses_differ a b m n h e = h (
      status_text-injective a b (
        append_cancel_left (q.base_dir ++ (b'/' ∷ [])) (status_text a) (status_text b) (
          append_assoc q.base_dir (b'/' ∷ []) (status_text a)
          ∙ ap (λ p. p.dir) e
          ∙ sym (append_assoc q.base_dir (b'/' ∷ []) (status_text b)))))

  pub filenames_differ : (a b : JobStatus) (m n : Text) → m ≢ n → job_path q a m ≢ job_path q b n
  filenames_differ a b m n h e = h (ap (λ p. p.name) e)

  pub job_path-ne-temporary :
      (a b : JobStatus) (m n : Text)
      → has_suffix m json_suffix ≡ true
      → job_path q a m ≢ temporary (job_path q b n)
  job_path-ne-temporary a b m n h e =
      let (r, split) = has_suffix_split m json_suffix h in
      suffixes_differ r n b'.' b'.' (codes "json") (codes "tmp") (omega arith)
        (sym split ∙ ap (λ p. p.name) e)

  logs-ne-status : (status : JobStatus) → codes "logs" ≢ status_text status
  logs-ne-status pending e = ground arith
  logs-ne-status running e = ground arith
  logs-ne-status done e = ground arith
  logs-ne-status failed e = ground arith

  pub log_file-ne-job_path :
      (status : JobStatus) (filename id : Text) → job_path q status filename ≢ log_file q id
  log_file-ne-job_path status filename id e = logs-ne-status status (
      append_cancel_left (q.base_dir ++ (b'/' ∷ [])) (codes "logs") (status_text status) (
        append_assoc q.base_dir (b'/' ∷ []) (codes "logs")
        ∙ sym (ap (λ p. p.dir) e)
        ∙ sym (append_assoc q.base_dir (b'/' ∷ []) (status_text status))))
