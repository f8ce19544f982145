-- ===== src/Engine/Tool/Extract.antt =====
-- internal/engine/tool.go: taking the tool out of an archive, and the whole of its resolution.
use yafe.Prelude.{Bool, ◌||◌, none, ◌⊎◌, inl, inr, List, [], ◌∷◌}
use yafe.Text.{Text, codes, text_eq, is_empty, has_prefix, has_suffix}
use yafe.Text.Case.{to_lower}
use yafe.Text.Paths.{clean, join}
use yafe.Result.{of_engine, joined, tool_extract, tool_binary_not_found}
use yafe.Exec.{Exec, pure, raise, wrap, attempt, handle, choose, ◌>>=◌, ◌>>◌}
use yafe.Engine.{ToolDeclaration}
use yafe.Engine.Host.{Host, SystemError, system_error, call, join_error, deferring}
use yafe.Engine.Validate.{is_archive_url}
use yafe.Engine.Tool.{
  ToolHost, TarFormat, plain, gzip, bzip2, attempts, download, verify_checksum, save_meta,
  needs_download, resolve_path_tool,
}

-- Whether a file of an archive is the binary.
unfoldable pub is_binary : Text → Text → Bool
unfolding clean text_eq has_suffix
is_binary binary_path name =
    text_eq (clean name) binary_path || has_suffix (clean name) (b'/' ∷ binary_path)

-- `strings.HasPrefix(filepath.Clean(destPath), filepath.Clean(destDir))`
unfoldable pub stays_in : Text → Text → Bool
unfolding clean join has_prefix
stays_in dest_dir tool = has_prefix (clean (join dest_dir tool)) (clean dest_dir)

module _ {W : Type 0} (h : Host W) (t : ToolHost W) (dest_dir tool binary_path : Text) where
  -- The body becomes the file of the tool, of at most 1 GiB.
  unfoldable pub write_binary : Text → Exec W (Unit {0})
  unfolding join
  write_binary body = do
    join_error tool_extract (call (h.create_file (join dest_dir tool)))
    join_error tool_extract (call (t.copy_limited 1073741824 body (join dest_dir tool)))

  -- `extractFromTar`
  unfoldable pub extract_from_tar : List (SystemError ⊎ (Text × Text)) → Exec W (Unit {0})
  unfolding is_binary stays_in write_binary system_error
  extract_from_tar [] = raise (of_engine tool_binary_not_found)
  extract_from_tar (inl e ∷ entries) = raise (joined tool_extract (system_error e))
  extract_from_tar (inr (name, body) ∷ entries) =
      choose (is_binary binary_path name)
        (choose (stays_in dest_dir tool) (write_binary body) (raise (of_engine tool_extract)))
        (extract_from_tar entries)

  -- The loop of `extractZip`
  unfoldable pub extract_files : List (Text × Text) → Exec W (Unit {0})
  unfolding is_binary stays_in write_binary
  extract_files [] = raise (of_engine tool_binary_not_found)
  extract_files ((name, file) ∷ files) =
      choose (is_binary binary_path name)
        (choose (stays_in dest_dir tool)
          (do body ← join_error tool_extract (call (t.open_zip_file file)); write_binary body)
          (raise (of_engine tool_extract)))
        (extract_files files)

  -- `extractTarGz`, `extractTarBz2` and `extractTar`
  unfoldable pub extract_tar : TarFormat → Text → Exec W (Unit {0})
  unfolding extract_from_tar
  extract_tar format archive = do
    entries ← join_error tool_extract (call (t.open_tar format archive))
    extract_from_tar entries

  unfoldable pub extract_zip : Text → Exec W (Unit {0})
  unfolding extract_files
  extract_zip archive = do
    files ← join_error tool_extract (call (t.open_zip archive))
    extract_files files

  extract_format : Text → Text → Exec W (Unit {0})
  unfolding to_lower has_suffix extract_tar extract_zip
  extract_format archive lower_url =
      choose (has_suffix lower_url (codes ".tar.gz") || has_suffix lower_url (codes ".tgz"))
        (extract_tar gzip archive)
        (choose (has_suffix lower_url (codes ".tar.bz2")) (extract_tar bzip2 archive) (
          choose (has_suffix lower_url (codes ".tar")) (extract_tar plain archive) (
            choose (has_suffix lower_url (codes ".zip")) (extract_zip archive)
              (raise (of_engine tool_extract)))))

  unfoldable pub extract_archive_by_url : Text → Text → Exec W (Unit {0})
  unfolding extract_format to_lower join
  extract_archive_by_url archive url = do
    extract_format archive (to_lower url)
    wrap (call (h.chmod (join dest_dir tool)))

module _ {W : Type 0} (h : Host W) (t : ToolHost W) (tools_dir : Text) where
  check_sum : ToolDeclaration → Text → Exec W (Unit {0})
  unfolding is_empty verify_checksum
  check_sum decl path =
      choose (is_empty decl.sha256) (pure tt) (verify_checksum h t path decl.sha256)

  -- An archive is downloaded to a temporary file, which is removed in the end.
  download_archive : ToolDeclaration → Exec W (Unit {0})
  unfolding download attempts check_sum extract_archive_by_url
  download_archive decl = do
    archive ← wrap (call (h.create_temp (codes "yafe-tool-archive-*")))
    deferring (call (h.remove archive)) (do
      download h t decl.url archive none (attempts decl.retries)
      check_sum decl archive
      extract_archive_by_url h t tools_dir decl.name decl.path archive decl.url)

  -- A binary is downloaded to its place, and removed if its checksum is another one.
  download_binary : ToolDeclaration → Exec W (Unit {0})
  unfolding download attempts check_sum join
  download_binary decl =
      let path = join tools_dir decl.name in
      do
        download h t decl.url path none (attempts decl.retries)
        checked ← attempt (check_sum decl path)
        handle checked pure (λ e. do attempt (call (h.remove path)); raise e)
        wrap (call (h.chmod path))

  unfoldable pub resolve_downloaded_tool : ToolDeclaration → Exec W (Unit {0})
  unfolding needs_download download_archive download_binary is_archive_url save_meta
  resolve_downloaded_tool decl = do
    needed ← needs_download h t tools_dir decl
    choose needed
        (do
          choose (is_archive_url decl.url) (download_archive decl) (download_binary decl)
          save_meta h t tools_dir decl)
        (pure tt)

  -- `Resolve`
  unfoldable pub resolve_tools : List ToolDeclaration → Exec W (Unit {0})
  unfolding resolve_path_tool resolve_downloaded_tool is_empty
  resolve_tools [] = pure tt
  resolve_tools (decl ∷ decls) = do
    choose (is_empty decl.url) (resolve_path_tool h t decl) (resolve_downloaded_tool decl)
    resolve_tools decls
