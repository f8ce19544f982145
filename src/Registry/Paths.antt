-- ===== src/Registry/Paths.antt =====
-- The paths of flows: different names have different files, and no flow is another's temporary file.
use yafe.Prelude.{◌≡◌, ◌≢◌, ap, ◌++◌, arith}
use yafe.Text.{Text, codes}
use yafe.Text.Laws.{append_cancel, suffixes_differ}
use yafe.Disk.{temporary}
use yafe.Registry.{FileFlowRegistry, flow_path, flow_file_extension}

pub flow_path-injective :
    (r : FileFlowRegistry) (m n : Text) → flow_path r m ≡ flow_path r n → m ≡ n
flow_path-injective r m n e = append_cancel flow_file_extension m n (ap (λ p. p.name) e)

pub flow_path-ne-temporary :
    (r : FileFlowRegistry) (m n : Text) → flow_path r m ≢ temporary (flow_path r n)
flow_path-ne-temporary r m n e =
    suffixes_differ m (n ++ flow_file_extension) b'.' b'.' (codes "yaml") (codes "tmp")
      (omega arith) (ap (λ p. p.name) e)

pub other_path : (r : FileFlowRegistry) (m n : Text) → n ≢ m → flow_path r n ≢ flow_path r m
other_path r m n h e = h (flow_path-injective r n m e)
