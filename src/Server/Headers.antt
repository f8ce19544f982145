-- ===== src/Server/Headers.antt =====
-- The rest of internal/server/server.go behind `/`: the headers of the web interface, and which file it
-- answers with. The files are a parameter.
use yafe.Prelude.{ℤ, Bool, true, false, ◌||◌, ◌==◌, List, [], ◌∷◌, ◌++◌, if◌then◌else◌}
use yafe.Text.{Text, codes, is_empty, text_eq}

-- `SecurityHeadersConfig`
pub record SecurityHeadersConfig : Type 0 where
  pub csp_enabled : Bool
  pub csp_value : Text
  pub hsts_enabled : Bool
  pub hsts_max_age : ℤ
  pub hsts_include_sub_domains : Bool
  pub hsts_preload : Bool

-- `defaultCspValue`
abbrev pub default_csp_value : Text
default_csp_value =
    codes
      "default-src 'self'; script-src 'self'; style-src 'self' 'unsafe-inline'; connect-src 'self'; img-src 'self' data:; font-src 'self'; object-src 'none'; frame-ancestors 'none'; frame-src 'self'"

-- `Header.Set`
unfoldable pub set_header : Text → Text → List (Text × Text) → List (Text × Text)
unfolding text_eq
set_header key value [] = (key, value) ∷ []
set_header key value ((k, v) ∷ headers) =
    if text_eq k key then (key, value) ∷ headers else (k, v) ∷ set_header key value headers

-- `int(d.Seconds())`, in decimals, is a parameter.
module _ (seconds : ℤ → Text) (cfg : SecurityHeadersConfig) where
  abbrev pub hsts_value : Text
  hsts_value =
      codes "max-age="
      ++ (seconds cfg.hsts_max_age
          ++ ((if cfg.hsts_include_sub_domains then codes "; includeSubDomains" else [])
              ++ (if cfg.hsts_preload then codes "; preload" else [])))

  -- `securityHeadersMiddleware`: the headers that it leaves for the handler behind it.
  unfoldable pub security_headers : List (Text × Text) → List (Text × Text)
  unfolding set_header is_empty
  security_headers headers =
      let csp = if is_empty cfg.csp_value then default_csp_value else cfg.csp_value in
      let with_csp =
        if cfg.csp_enabled
        then set_header (codes "Content-Security-Policy") csp headers
        else headers in
      if cfg.hsts_enabled
      then set_header (codes "Strict-Transport-Security") hsts_value with_csp
      else with_csp

-- What `fsys.Open` finds, with what `Stat` says of it.
pub data Found : Type 0 where
  missing : Found
  unreadable : Found
  directory : Found
  regular : Found

-- What is answered: the file of the path, the page of the application, or an error.
pub data Page : Type 0 where
  file_page : Page
  index_page : Page
  not_found : Page
  index_missing : Page
  index_unreadable : Page

abbrev pub index_html : Text
index_html = codes "index.html"

unfoldable pub has_dot : Text → Bool
has_dot [] = false
has_dot (c ∷ s) = (c == b'.') || has_dot s

-- `strings.TrimPrefix(path, "/")`
abbrev pub without_slash : Text → Text
without_slash [] = []
without_slash (c ∷ path) = if c == b'/' then path else c ∷ path

abbrev pub is_regular : Found → Bool
is_regular regular = true
is_regular _ = false

abbrev pub index_answer : Found → Page
index_answer missing = index_missing
index_answer unreadable = index_unreadable
index_answer directory = index_page
index_answer regular = index_page

-- `spaFileServer`
unfoldable pub spa_page : (Text → Found) → Text → Page
unfolding has_dot is_empty
spa_page files url_path =
    let path = if is_empty (without_slash url_path) then index_html else without_slash url_path in
    if is_regular (files path)
    then file_page
    else if has_dot path
    then not_found
    else index_answer (files index_html)
