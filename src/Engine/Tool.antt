-- ===== src/Engine/Tool.antt =====
-- internal/engine/tool.go: the tools of a flow are looked up or downloaded. HTTP, archives, JSON and
-- SHA-256 are parameters.
pub mod Download
pub mod Extract
use yafe.Prelude.{
  ℕ, zero, suc, ℤ, pos, negsuc, less_than_one, Bool, true, false, not, ◌&&◌, ◌||◌, Option, none,
  some, ◌⊎◌, inl, inr, List, [], ◌∷◌, ◌++◌, ◌==◌, if◌then◌else◌,
}
use yafe.Text.{Text, codes, text_eq, is_empty}
use yafe.Text.Paths.{join}
use yafe.Result.{
  Error, Result, ok, err, of_engine, joined, wrapped, failure, os_is_not_exist, malformed,
  tool_not_found, tool_download, tool_checksum,
}
use yafe.Exec.{Exec, pure, raise, wrap, attempt, handle, match_option, choose, ◌>>=◌, ◌>>◌}
use yafe.Engine.{ToolDeclaration}
use yafe.Engine.Host.{Host, System, SystemError, system_error, call, join_error, deferring}
use yafe.Engine.Validate.{is_archive_url}

pub record ToolMeta : Type 0 where
  pub url : Text
  pub path : Text
  pub sha256 : Text
  pub retries : ℤ

pub data TarFormat : Type 0 where
  plain gzip bzip2 : TarFormat

-- What only the tools call. A body is named by a text: that of an answer, or of a file in an archive.
pub record ToolHost (W : Type 0) : Type 0 where
  -- `http.NewRequestWithContext` and `Do`: the status and the body
  pub http_get : Text → System W (ℕ × Text)
  -- `io.Copy` into the file that was just created
  pub copy : Text → Text → System W (Unit {0})
  -- the same behind an `io.LimitReader`, and `Close`
  pub copy_limited : ℕ → Text → Text → System W (Unit {0})
  -- `hex.EncodeToString` of the SHA-256 of the file
  pub sha256_hex : Text → System W Text
  -- what the calls of `tar.Reader.Next` give until `io.EOF`: an error, or a name and a body
  pub open_tar : TarFormat → Text → System W (List (SystemError ⊎ (Text × Text)))
  -- the files of a zip archive, and `Open` of one of them
  pub open_zip : Text → System W (List (Text × Text))
  pub open_zip_file : Text → System W Text
  pub write_file : Text → Text → System W (Unit {0})
  pub encode_meta : ToolMeta → Text
  pub decode_meta : Text → Option ToolMeta

abbrev pub meta_path : Text → Text → Text
meta_path tools_dir name = join tools_dir (name ++ codes ".meta.json")

-- Whether a tool was downloaded by another declaration.
unfoldable pub has_changed : ToolMeta → ToolDeclaration → Bool
unfolding text_eq
has_changed meta decl =
    not (text_eq meta.url decl.url)
    || not (text_eq meta.path decl.path)
    || not (text_eq meta.sha256 decl.sha256)

-- How often a download is tried.
unfoldable pub attempts : ℤ → ℕ
unfolding less_than_one
attempts (pos n) = if less_than_one (pos n) then 1 else n
attempts (negsuc n) = 1

module _ {W : Type 0} (h : Host W) (t : ToolHost W) where
  unfoldable pub do_download : Text → Text → Exec W (Unit {0})
  do_download url dest = do
    answer ← call (t.http_get url)
    choose (answer.0 == 200) (do call (h.create_file dest); call (t.copy answer.1 dest))
        (raise failure)

  -- `download`, with the attempts that are left and the last error.
  unfoldable pub download : Text → Text → Option Error → ℕ → Exec W (Unit {0})
  unfolding do_download
  download url dest last zero w =
      match_option last (raise (of_engine tool_download)) (λ e. raise (joined tool_download e)) w
  download url dest last (suc n) w =
      let first = do_download url dest w in
      elim first.0 [ ok a ↦ (ok tt, first.1) | err e ↦ download url dest (some e) n first.1 ]

  unfoldable pub verify_checksum : Text → Text → Exec W (Unit {0})
  unfolding text_eq
  verify_checksum path expected = do
    actual ← wrap (call (t.sha256_hex path))
    choose (text_eq actual expected) (pure tt) (raise (of_engine tool_checksum))

  unfoldable pub load_meta : Text → Text → Exec W ToolMeta
  unfolding join
  load_meta tools_dir name = do
    content ← call (h.read_file (meta_path tools_dir name))
    match_option (t.decode_meta content) (raise malformed) pure

  unfoldable pub save_meta : Text → ToolDeclaration → Exec W (Unit {0})
  unfolding join
  save_meta tools_dir decl = wrap (
      call (
        t.write_file (meta_path tools_dir decl.name) (
          t.encode_meta (record {
            url = decl.url;
            path = decl.path;
            sha256 = decl.sha256;
            retries = decl.retries;
          }))))

  unfoldable pub needs_download : Text → ToolDeclaration → Exec W Bool
  unfolding join os_is_not_exist system_error load_meta has_changed
  needs_download tools_dir decl = do
    found ← attempt (call (h.stat (join tools_dir decl.name)))
    handle found
        (λ _. do
          meta ← attempt (load_meta tools_dir decl.name)
          handle meta (λ m. pure (has_changed m decl)) (λ e. pure true))
        (λ e. choose (os_is_not_exist e) (pure true) (raise (wrapped e)))

  -- `resolvePathTool`
  unfoldable pub resolve_path_tool : ToolDeclaration → Exec W (Unit {0})
  resolve_path_tool decl = do
    found ← attempt (call (h.look_path decl.name))
    handle found (λ path. pure tt) (λ e. raise (of_engine tool_not_found))
